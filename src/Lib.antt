-- ===== src/Lib.antt =====
-- The AI SRE platform (src/ of the repository): a FastAPI service that registers servers, runs
-- read-only commands on them, collects telemetry, keeps an inventory, judges health by rules, and
-- takes incidents through their life cycle.
--
-- The parts and the files that model them, with paths from the repository's root:
-- - Executor.Policy and Executor.Validator: src/domain/executor/command_validator.py, the policy
--   that every command passes (`validate`, `extract_subcommand`). Its children prove what is
--   accepted and what gets past it.
-- - Executor.Linux: src/infrastructure/executor/linux_command_executor.py. `execute` asks the
--   validator, starts a process, waits with a timeout, kills, waits for its end, and reports. The
--   operating system is a `Host` that answers from the calls made so far, so a run is also its list
--   of calls; a call that waits for ever is `none`.
-- - Incident and Incident.Lifecycle: src/domain/entities/incident.py, the state machine OPEN,
--   ACKNOWLEDGED, IN_PROGRESS, RESOLVED, CLOSED (`transition_to`).
-- - Incident.Factory: src/domain/factories/incident_factory.py (`create_from_health`).
-- - Incident.Service: src/application/services/incident_service.py. Incident.Service.Request makes
--   one step of each operation, and Incident.Service.Invariant runs any sequence of them.
-- - Values: Python values of a dynamic type (`Any`). Inventory: src/domain/entities/inventory.py and
--   discovery.py. Inventory.Service: src/application/services/inventory_service.py.
-- - Monitoring.Rules: src/infrastructure/monitoring/rules.py. Monitoring.Engine:
--   src/application/services/rule_engine.py; its assessments feed Incident.Factory
--   (Monitoring.Alerts).
-- - Collector.Registry and Collector.Orchestrator: src/application/orchestrator. The tasks of
--   `run_parallel` (Collector.Orchestrator.Parallel) are coroutines that the event loop resumes in any
--   order.
-- - Collector.Concrete: src/infrastructure/collectors, the nine collectors over any command executor,
--   each with its parser as a parameter (Simple, Logs, Docker, Kubernetes, and Suite for all of them).
-- - Parsing: src/application/parsers with the metrics of src/domain/metrics (Memory, Disk, Cpu,
--   Service, Log, Docker, Network with the addresses of Hex, System with Uptime). Parsing.Suite
--   puts six of them in the place of the collectors' parameters. A part of a line is only read after
--   the test of the number of its parts (`columns`, `Row`, `part`), as an index that is not below
--   it has no `part`. `int` of a text is `parse_int`,
--   over the interpreter's tables of digits, with its limit of 4300 digits.
-- - Connector.Ssh: src/infrastructure/connectors/linux/ssh_connector.py, the connection and its retries;
--   Connector.Ssh.Channel waits for a command and Connector.Ssh.Session holds the public calls.
--   paramiko is the record `Paramiko` over a world.
-- - Connector.Hostinger: src/infrastructure/connectors/hostinger/hostinger_connector.py.
--   Connector.Registry: connector_registry.py and connector_resolver.py of src/infrastructure/connectors.
-- - Telemetry: src/infrastructure/telemetry and src/domain/dtos/telemetry.py; Telemetry.Orchestrator:
--   src/application/services/telemetry_orchestrator.py, over a connector; Telemetry.Parsers:
--   src/application/telemetry/parsers.py; Telemetry.OverSsh puts the
--   SSH connector in its place.
-- - Discovery: src/application/services/discovery_service.py and src/domain/discovery/commands.py.
--   Discovery.Parsers: src/application/discovery/parsers.py.
-- - Metric: src/application/services/metric_service.py and src/domain/entities/metrics.py.
-- - Server.Service and Server.Hostname: src/application/services/server_service.py.
-- - Api, Api.Incidents and Api.Endpoints: the status codes of src/main.py and the endpoints of
--   src/presentation/api/v1/incidents.py, over the incident service.
-- - Errors: src/domain/exceptions.py and the built-in exceptions; a call that may raise returns a
--   `Result`. Effects: methods over a state; what was written before an exception stays written.
-- - Repository: src/domain/interfaces/repositories.py as an interface, `IsRepository` its contract,
--   and Repository.Memory an implementation that fills it.
-- - Common: texts as lists of code points with Python's methods on them, dictionaries in insertion
--   order, and tests on lists and numbers.
--
-- Parameters. Python's float is a type `Float`, with the operations that a part calls. The case
-- tables of Unicode outside ASCII are `CaseTables`. The database stands behind repositories, whose
-- contract (`Works`, `IsRepository`) is what they promise while the database works; each contract
-- has an instance in memory. The contract of the incident repository (`IsIncidentRepository`) lets
-- a save of a stored incident raise after its write, and that of the server repository lets the
-- database set the dates. Clocks, the operating system, and ipaddress.ip_address are parameters
-- too. A key of the database and a point in time are natural numbers.
--
-- Bounds. Loops are structural recursion, but for those that wait for a remote command: the source
-- gives them no bound, and they run on fuel, with a fuel that is enough where the command ends.
-- `show` runs on fuel, one round for each digit, and a number has at least as many rounds as
-- digits; `is_instance` looks three classes up, more than the hierarchy has. The score of an
-- assessment is a whole number below 2^53, where floats are exact.
--
-- Not modelled: logging; the endpoints of src/presentation for the other services; the SQLAlchemy
-- models, the mappers that reach them, and repositories; the parser of Kubernetes and that of the
-- metadata of containers, which read JSON; cancellation of a task.
pub mod Common
pub mod Errors
pub mod Effects
pub mod Repository
pub mod Values
pub mod Server
pub mod Health
pub mod Inventory
pub mod Monitoring
pub mod Executor
pub mod Collector
pub mod Connector
pub mod Telemetry
pub mod Discovery
pub mod Metric
pub mod Parsing
pub mod Incident
pub mod Api
