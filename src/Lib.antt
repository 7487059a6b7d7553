-- ===== src/Lib.antt =====
-- A model of the core of the e-platform backend (backend/apps): who may watch a lesson, how that
-- right is bought, granted and lost, how accounts are admitted, verified and recovered, how
-- courses are reviewed, published and found, how media and its transcripts reach a learner, what
-- the providers' webhooks record, and what a learner's progress records.
--
-- The parts, and the code that each models:
--   Prelude       shared helpers: Boolean tests, tables as lists of rows (newest first, the models'
--                 ordering), keys and unique pairs of columns, results of calls that may raise, text
--                 as code points.
--   Accounts      backend/apps/accounts: roles and users (models.py, privileges.py), Model (the other
--                 tables), Registration, Invitations, Tokens and Roles (services.py, managers.py),
--                 Endpoints (the views on registration, verification and passwords) and Selectors;
--                 Admission, Calm, Reach, Redeeming, Outcomes, Enumeration and Welcome hold
--                 theorems.
--   Core          backend/apps/core: Audit (audit.py), Inbox (the table of webhook events), Metrics
--                 (metrics.py, and the alert of backend/apps/transcripts/tasks.py).
--   Entitlements  backend/apps/entitlements: Model (models.py), Resolver (resolver.py and the two
--                 selectors that it reads), Provider (providers/base.py and fake.py), Services
--                 (services.py), Selectors (selectors.py, and the alert of tasks.py).
--   Catalog       backend/apps/catalog: Model (models.py), and of services.py Review (the moves of a
--                 course), Order (_apply_order) and Content (creation, edits, the search vector);
--                 Selectors (selectors.py), Lessons (learning_views.py, behind the permission
--                 of entitlements/permissions.py); Visibility and Served hold theorems.
--   Media         backend/apps/media_assets: Model (models.py), Storage (the pure functions of
--                 providers/storage.py), Services (services.py), Tasks (tasks.py), Webhooks
--                 (webhooks.py), Selectors (selectors.py).
--   Learning      backend/apps/learning: Model (models.py), Services (services.py) and Selectors
--                 (selectors.py).
--   Transcripts   backend/apps/transcripts: Model (models.py), Services (services.py and what the callback of
--                 tasks.py writes), Callback (that task as a whole), Requests (request_transcription of
--                 tasks.py), Webhooks (webhooks.py), Selectors (selectors.py), Cues and Rendering (rendering.py); Review, Submission,
--                 Early, Scope, Digits and Stamps hold theorems.
--   Webhooks      the two receivers on their shared table, as a sequence of requests; Lost composes them
--                 with the tasks of a transcription.
--   Examples      concrete accounts and stores, and the theorems applied to them.
-- Functions keep the source's names, less a leading underscore. As in the code, services of Media
-- and Learning ask the resolver of Entitlements, Transcripts asks Media who manages a lesson, and
-- Catalog, Accounts and Entitlements write rows of Core.
--
-- How the code is read. A Django table is a list of rows and a service is a function from the store
-- to a result and the next store. A service under `@transaction.atomic` returns a `Result`: when it
-- raises nothing is written. `complete_upload` and the tasks are not atomic, so their store stands
-- beside the result. One transaction runs at a time, on the instance that it read. A write to a row
-- is checked against the table's constraints, and refused as `integrity_error` (`data_error` for
-- progress). Times are microseconds and every reading of the clock is an argument. A UUID is a
-- number. A confidence is in thousandths, as its column holds it. The retry count of a media
-- asset is taken to fit its column. `none` stands for a `KeyError` where a dictionary is looked up.
--
-- Parameters: the billing provider, the object store, the video provider and its token mint,
-- PostgreSQL's text search and collation, the webhook adapters with their
-- signatures, Python's and PostgreSQL's lower case, hashing, primary keys and random tokens that a call generates, and the settings.
-- `run_task` takes fuel, one unit for each run of the task; one more than the retry budget is
-- enough when every run fails. LESSON_COMPLETION_THRESHOLD is a fraction, compared exactly.
--
-- Not modelled: sign-in and sessions, the export of personal data, the delivery of notifications,
-- logging, the text of metrics, the other HTTP views and serializers, the fake providers' signing, management
-- commands, settings, and the frontend. `created_at` and `updated_at` are the order of the rows, or a
-- parameter where a query reads them.
pub mod Prelude
pub mod Accounts
pub mod Core
pub mod Entitlements
pub mod Catalog
pub mod Media
pub mod Learning
pub mod Transcripts
pub mod Webhooks
pub mod Examples
