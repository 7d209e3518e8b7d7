-- ===== src/Lib.antt =====
-- GlitchTip backend: a model of parts of the server's own logic, with theorems about them.
--
-- Parts, and how they interact. Events arrive at the ingest endpoints, are scrubbed of sensitive data
-- and stored; the count of an organization's events in its billing cycle decides how much of them is
-- throttled and what is billed to Stripe beyond the plan. A scheduler dispatches uptime monitors,
-- probes them and saves the results in batches, with debounced states that trigger notifications.
-- Old performance spans move from the database to Parquet files, which are merged by hour and day.
-- Logs, events and statistics lie in tables that are partitioned by time and hash and maintained ahead of time.
-- Uploaded artifacts are assembled from chunks and kept as bundles.
--
--   Common       tests, lists and sums that the components share
--   Billing      apps/stripe/overage.py (Overage: tiers, cost_cents_for_units, units_for_budget;
--                Overage/Verify: tier_problems) and apps/organizations_ext/tasks.py (Meter:
--                _report_overage, _persist_overage, _rollback_overage; Throttle:
--                _progressive_throttle, _check_and_update_throttle). A check computes the spend
--                cap's units with Overage and reports through Meter.
--   Uptime       apps/uptime/tasks.py (Debounce: _next_state; Save: save_monitor_checks,
--                update_uptime_statistics; Runner: run_checks; Dispatch: dispatch_checks) and
--                apps/uptime/utils.py (Fetch: fetch, process_response). Runner collects what Fetch
--                returns and hands batches to Save, which applies Debounce.
--   Events       apps/event_ingest/process_event.py (Issues: check_set_issue_id,
--                _create_issue_and_hash and the loop of process_issue_events; Update: update_issues and
--                the reopening; Releases: create_environments, get_and_create_releases; Stats: the
--                hourly counts, update_statistics, update_org_statistics; Tags: update_tags; Search:
--                get_search_vector; Stacktraces: hydrate_stacktrace; Transactions:
--                _update_transaction_group_stats and the loop before it, over Spans/Histogram). Tags and the hourly counts share the counters of Stats.
--   Ingest/Scrub apps/event_ingest/pii_scrubber.py (Keys: normalization, tokens, the key matcher;
--                Luhn: _luhn_valid; Walk: the recursive walk; Event: scrub_event, scrub_log)
--   Ingest/Auth  apps/event_ingest/authentication.py (get_project, get_project_by_key with the block
--                cache)
--   Urls         glitchtip/url_validation.py (check_url_safe, whose answer is an input of Fetch, and
--                validate_public_url)
--   Spans        apps/performance/promotion.py (Compaction: _compact_org_date, _roll_sealed_day) and
--                apps/performance/histogram.py (Histogram)
--   Partitions   glitchtip/partition_manager.py (Uuid7: UUID7Helper; Tables: the catalogue and the statements;
--                Manager: PartitionManager) and
--                glitchtip/management/commands/maintain_partitions.py (Maintenance)
--   Logs         apps/logs/process_logs.py (Span: parse_span_id; Items: what is read from an item; Process:
--                process_log_events; Store: the tables and the statements), with the identifiers of
--                Partitions and the counters of Events/Stats
--   Files        apps/files/assemble.py (Assemble: assemble_file; Bundles: the bundles of
--                assemble_artifacts)
--
-- State is passed explicitly: a row, a table as a function of its keys, the cache, or a tree of files
-- goes in and comes out. Amounts of money are whole numbers of a money unit of which a cent is a
-- multiple, times are seconds (milliseconds in Runner, Fetch, Partitions and Logs, microseconds for the
-- datetimes that Uuid7 converts). What lies outside the repository is
-- an argument: Stripe's meter (MeterApi, with the two facts that the code relies on), the network,
-- the clock, random draws, DuckDB's free slots, which names and rows of logs
-- the database takes, Python's conversions of log items and of datetimes to milliseconds, digests, the formatting of numbers,
-- Python's lower-casing, regular expressions, URL parsing and address classes. All loops are
-- structural recursions on the list that the program loops over; the loop over a batch of events, whose
-- body changes the events behind it, runs for as many turns as the batch has events.
-- The loop over the dates of partitions runs on fuel, eight rounds for a week of days and five for four weeks,
-- which is one more than there are partitions.
--
-- Not modelled: database queries and migrations, HTTP glue, mails and webhooks, Stripe
-- synchronization, symbolication, the hashes of events, the archives that artifacts are extracted from, the
-- archive and the queries of logs, the promotion of spans, user and project management.
-- The search for the billing cycle's dates and the event counts are inputs of the throttle check.
pub mod Common
pub mod Billing
pub mod Uptime
pub mod Events
pub mod Spans
pub mod Ingest
pub mod Urls
pub mod Partitions
pub mod Logs
pub mod Files
