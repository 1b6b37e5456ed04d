-- ===== src/Lib.antt =====
-- tr-bridge: a model of the HTTP bridge to Trade Republic, and the theorems about it.
--
-- The service reads a configuration file with one or more Trade Republic accounts, keeps a login
-- session for each, and offers status, login, second factor and timeline over HTTP behind an API
-- key. A request passes the middleware, reaches a route, which asks the registry for the session of
-- the named instance; the session drives the login through a port that the pytr adapter implements.
-- Every error ends as a problem document.
--
-- Files, and the code that each is about:
--   Domain             tr_bridge/domain/state.py: `SessionState`, `LoginChallenge`, the domain errors
--   Problem            tr_bridge/errors.py: `ProblemDetail`, `DomainError.__init_subclass__`,
--                      `to_problem_detail`, `problem_response`
--   Config             tr_bridge/config.py: `Config.from_file`, `session_dir` and their helpers
--   Window             tr_bridge/timewindow.py: `parse_window`, `to_utc_iso`
--   Port               tr_bridge/application/ports.py: `TradeRepublicClient`
--   Pytr               tr_bridge/adapters/pytr/pytr_client.py: `PytrClient`
--   Registry           tr_bridge/instance_registry.py: `InstanceRegistry`
--   Web/Auth           tr_bridge/auth.py, and `auth_middleware` of tr_bridge/adapters/web/handlers.py
--   Web/Handlers       the exception handlers of tr_bridge/adapters/web/handlers.py
--   Web/Schemas        tr_bridge/adapters/web/schemas.py
--   Web/Routes         tr_bridge/adapters/web/routes.py
--   Session            tr_bridge/application/session.py: `InstanceSession`
--   Startup            tr_bridge/main.py: `_lifespan`, `_read_version`
--   OpenApi            tr_bridge/main.py: `_custom_openapi`
--   Web/Table          the routes that `register_routes` of tr_bridge/adapters/web/routes.py registers
--   App                tr_bridge/main.py: the application, and a request on its whole way through it
--   Service            the way of an answer through Pytr, Session, Web/Routes and Web/Handlers, a
--                      whole login over the adapter, the routes of an instance with the client in
--                      the registry, and the runs of the started service in which requests overlap
--   Base, Text         what these share: Boolean tests, results, lists, and Python's `str`
-- The modules below a component hold its theorems, and its Tests module concrete runs. Definitions
-- stand below a component too where it is large: Config/Yaml (what the YAML parser gives) and
-- Config/Entry (one entry of `instances`), Pytr/Translate (what each `except` raises), Session/Steps
-- (the interleavings), Session/Calls (whole calls, given the answers of the port), Session/Driven
-- (whole calls with the port that they call) and Pytr/Adapter (`PytrClient` as that port).
--
-- State. A session is the object's fields together with what the event loop knows of its coroutines:
-- the tables of timer and push tasks, the login that holds the lock, the calls that wait. asyncio
-- switches coroutines only at an await, so each stretch between two awaits is one function
-- (`enter_login`, `login_resumed`, `login_challenged` for `start_login`, and so on), and
-- Session/Steps lists the steps that the event loop can choose from, with any answer of the port. A
-- client of pytr is a state passing action, in which what is done stays done when a call raises. The
-- other parts are functions whose errors are values. Requests that overlap share the registry: a run
-- of the service (Service/Runs) moves one session by one of its steps at a time. App/Runs adds the whole
-- requests: what they change is `application.state` and the world, passed from one to the next.
--
-- Parameters. The operating system and `yaml.safe_load` (`Config.Env`), `datetime.fromisoformat` and
-- `isoformat` (`Window.Iso`), pytr (`Pytr.Pytr`), Starlette's choice of an exception handler
-- (`Web.Handlers.Starlette`) and pydantic (`Web.Schemas.Pydantic`) are records that the definitions
-- take, and FastAPI's `get_openapi` is a function. `App.Platform` gathers what a whole request needs,
-- with FastAPI's routing, of which two laws are assumed: what is found is registered and fits the
-- request, and a page of the documentation is found at its URL. What is assumed of them is named where it is
-- needed: `Config.Faults.IsTame`, `Window.Utc.PrintsUtc`, `Window.Again.ReadsPrinted`,
-- `Pytr.Adapter.IsLocal`, `Web.Schemas.IsPydantic` and the laws of `Starlette`.
--
-- Bounds. No function needs fuel: all recursion is on lists, texts and parsed documents. A run of a
-- session may be of any length. Numbers are natural numbers, as Python's integers have no bound; a
-- time is in microseconds since the year 1, up to the end of the year 9999.
--
-- Not modelled: logging, the bytes of a response, what pydantic does inside, the parts of the OpenAPI
-- document that the code leaves as they are, uvicorn, and the threads behind
-- `asyncio.to_thread`, and how the attempts of `resume_all` interleave: the answer to each is given for
-- its name. Messages keep the pieces of their f-strings apart and are not rendered.
pub mod Base
pub mod Text
pub mod Domain
pub mod Problem
pub mod Config
pub mod Window
pub mod Port
pub mod Pytr
pub mod Registry
pub mod Service
pub mod OpenApi
pub mod Startup
pub mod App
pub mod Web
pub mod Session
