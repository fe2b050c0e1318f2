-- ===== src/Lib.antt =====
-- Bracket Craft runs football tournaments: rules, draws and calendars, match reports, standings
-- and brackets. This library models the parts of its backend that decide results, in Python
-- under backend/app, and proves what they promise.
--
-- Parts and files:
--
-- Prelude       names and lemmas that the other modules share: Boolean tests, lists, integers,
--               Python's `sorted` (Prelude.Sort), dicts (Prelude.Dict), raised errors
--               (Prelude.Errors), a defaultdict(list) (Prelude.Grouping), identifiers and lists of them as multisets (Prelude.Teams).
-- Events        the event kinds of backend/app/modules/matches/schemas.py.
-- HeadToHead    backend/app/modules/standings/head_to_head.py: the fallback order, the mini-table
--               of a tied group, and the order that it gives.
-- Substitutions backend/app/modules/rules_engine/substitutions.py: records and canonical order in
--               the module itself, the state on the field in Field, counters and balances in
--               Limits, the validations in Checks.
-- Replay        `replay_report_state` of backend/app/modules/matches/service.py, which runs the
--               substitution engine over a report before it is written.
-- Rules         backend/app/modules/rules_engine/engine.py and defaults.py: the configuration and the
--               rules of a stage in the module itself, what the JSON schema demands (Schema), the
--               validations (Validation), the normal form (Normalize), `compute_match_outcome`
--               (Outcome), and the sanctions of a report (Suspensions).
-- MatchRules    the minutes, the walkover score, the double yellow rule and the next segment of a match,
--               of backend/app/modules/matches/service.py, which reads the rules and passes a derived
--               walkover on to `compute_match_outcome`.
-- Schedule      backend/app/modules/tournaments/scheduling.py: the round robin (RoundRobin), the draw
--               in groups (Groups), brackets (Brackets), single elimination (SingleElimination) and double
--               elimination (DoubleElimination), and the Swiss draw: orders and search (Swiss), bye, fallback and
--               `build_swiss_pairings` (Swiss.Draw). `random.Random` is the parameter `Shuffler`:
--               seeded, and its shuffle keeps each team as often as it was; the place in the order of
--               what `random()` gives is the parameter `draws`, about which nothing is assumed. Dates
--               are in seconds.
-- Standings     `recalculate` of backend/app/modules/standings/service.py: the rows and what the cards
--               and matches add in the module itself, `split_bucket` and the ranking pipeline in
--               Pipeline, the whole of it in Recalculate. It validates the rules (Rules) and splits a
--               bucket by the mini-table of HeadToHead. The SHA-256 digest of the final draw is the
--               parameter `tie_value`. The values that the SQL queries give are arguments.
-- Advancement   backend/app/modules/advancement/service.py over a store that is its explicit state
--               (the matches, the links and the outbox of one organization): the links of a match,
--               the second grand final, and in Locks the targets that a closing locks, with
--               `lock_matches` of backend/app/core/locking.py. An SQL update is `update_where` with its
--               row count; a run that raises leaves the store as it was, since the transaction is
--               rolled back.
--
-- Conventions: a UUID is a number, since it is only compared and its text sorts as the number. A
-- Python set of identifiers is a list, with the set operations written out; a dict is an
-- association list in insertion order. A function that raises returns a `Result`, its errors
-- named by their reason. Scores and minutes of a report are natural numbers where only the
-- request schemas produce them; the values of a rules configuration, the scores that the rules
-- engine compares with it, and goal differences are integers of unbounded size. Loops over collections
-- are recursions on the list.
--
-- Fuel: `bit_length` halves its argument, which bounds its own steps; the blocks of a draw each deal
-- at least one team, so that as many blocks as teams are enough (Schedule.Groups.Blocks). Each call
-- of the Swiss search, and each round of its fallback, takes two teams, so that the number of teams
-- bounds both; the digits of `a & b` are at most as many as `a`; a search that stopped for want of fuel would deny a round that exists
-- (Schedule.Swiss.Conclusive). Every other recursion is structural.
--
-- Not modelled: SQL text, HTTP routing, sessions and the storage, which only carry the values to
-- these functions; message texts of errors; the thread and the timeout of `run_swiss_pairing`.
pub mod Prelude
pub mod Events
pub mod HeadToHead
pub mod Substitutions
pub mod Rules
pub mod MatchRules
pub mod Replay
pub mod Schedule
pub mod Standings
pub mod Advancement
