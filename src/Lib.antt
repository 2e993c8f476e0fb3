-- ===== src/Lib.antt =====
-- Vexdock: verification of the TypeScript programs of the repository, the web application under
-- apps/web, the auth service under apps/auth and the migration script under scripts.
--
-- Parts and files
--   Base        the names that the modules share; Boolean tests and lists on native numbers.
--   Text        JavaScript strings as lists of UTF-16 code units, with the methods that the sources
--               call: `trim`, `split`, `join`, `indexOf`, `slice`, `replaceAll`, `startsWith`.
--   Access      apps/web/src/lib/access.ts: `grantList`, `picksNothing`, `accessSummary`.
--   Api         apps/web/src/lib/api.ts. Api/Types has the types, Api/Projects, Analytics, Services,
--               Routing, Docker and System the members of `api` as data, each with its method, path,
--               body and answer, in the order of the source; Api/Own puts them together. Api/Request
--               is `request`, `readJson` and `health`; Api/Told is about what they answer.
--   Auth        apps/auth/src. Auth/Server is `fetch` of server.ts, Auth/Runs the overlapping of its
--               requests, Auth/Issuer `backfillAccountIssuer` of account-issuer.ts.
--   Format      apps/web/src/lib/format.ts. Format/Bytes is `bytes`, Format/Times `since`, `until` and
--               `duration`, Format/Mask `maskUrlPassword`, Format/LogLine `parseLogLine`, Format/Ansi
--               `ansiSegments`, Format/AccessLine `parseAccessLine`, Format/Sgr `applySgr` and
--               `xterm256`, Format/Build `parseBuildLine` and `parseBuildResult`; Format/Scan is the
--               steps of their regular expressions.
--   Events      apps/web/src/lib/sse.ts. Events/Stream is `useEventSource`, Events/Refresh `refresh` of
--               `useSystemEvents`.
--   Trail       apps/web/src/lib/breadcrumb.ts: `trailOf`, `servedBy`.
--   Bulk        apps/web/src/components/service-bulk-actions.tsx: `freeName` and the run of one action
--               of `useServiceBulk`, whose calls are those of Api/Services.
--   Crumbs      apps/web/src/components/crumb-picker.tsx. Crumbs/Picker is `CrumbPicker`, its search and
--               its keys, Crumbs/Switch `switchTo` of `EnvironmentCrumb`.
--   Domains     apps/web/src/components/domains-panel.tsx. Domains/Panel is `DomainsPanel` with its two
--               dialogs, Domains/Certificates `CertificateState` with `certificateStatus` of
--               apps/web/src/lib/api.ts. Its requests are those of Api/Routing.
--   Dotenv      apps/web/src/lib/dotenv.ts, the environment editor's text form of a service's
--               variables. Dotenv/Value is `quote`, `unquote`, `closingQuote`, `withoutComment`;
--               Dotenv/Entries is `entries`, the loop over the lines with the value that stays open;
--               Dotenv/Vars is `toDotenv`, `fromDotenv`, `lineProblems`, `saveProblems`, `unsaved`.
--   EnvEditor   apps/web/src/components/env-editor.tsx, over Dotenv. EnvEditor/Rows is the table of
--               `VariablesEditor` and `VariableRows`, EnvEditor/Line the colored copy of `EnvEditor`,
--               EnvEditor/Form the draft of `VariablesForm`.
--   Inbox       apps/web/src/components/deployment-inbox.tsx. Inbox/Store is `readIds` and
--               `useStoredIds`, Inbox/Items the notifications of `DeploymentInbox`.
--   LogView     apps/web/src/components/log-viewer.tsx. LogView/Buffer is the buffer of LogViewer,
--               LogView/Ideal the same console without a limit, LogView/Severity `severityOf`,
--               LogView/Steps `buildSteps`, LogView/View the lines that are shown, and `outputLines`.
--   Metrics     apps/web/src/components/metric-chart.tsx: what `useHistory` draws, `ratesOf`,
--               `totalOf`, `seriesOf`, on natural numbers.
--   Migrate     scripts/migrate-dokploy.ts. Migrate/Types holds its types and requests, Migrate/World
--               its state, errors and the two requests `dokploy` and `vexdock` (here vexdock_api, as
--               no name is that of the library); Migrate/Fragment is `rawFragment` and
--               `namedVolumes`, Migrate/Variables `putVariables`, Migrate/Source
--               `readDokployProject`, Migrate/Create `createApp`, `createCompose`, `createDomains`,
--               Migrate/Postgres `createPostgres`, Migrate/Volumes `deployAndWait`, `copyVolume`,
--               `restoreDump`, Migrate/Run the module's top level.
--   Ports       apps/web/src/components/service-routing.tsx: `portRows`. Ports/Keys is about the keys of
--               ports, Ports/Drift about when a deploy is due.
--   Session     apps/web/src/components/auth-gate.tsx: the redirects of AuthGate and `safeNext`, with
--               the login page (apps/web/src/routes/login.tsx) and the first query of
--               apps/web/src/router.tsx. Session/Expired joins them with Api/Request.
--   Transfer    apps/web/src/components/import-services-form.tsx: `decodeExport`, `mergeEnv` and the
--               import, whose calls are those of Api/Projects and Api/Services.
--
-- State
--   A run of the script is a function on World: the requests sent, the latest first, and the four
--   lists that the script keeps. It ends in `ok`, in `error` with the message thrown, or in
--   `waiting`, where it still polls a deployment when the bound `polls` on the rounds of each wait
--   is used up. The source has no bound: every theorem on a run holds for every `polls`, so for each
--   finite part of an endless wait. The auth service is a step relation: a request is answered, or
--   handed to better-auth, or finished by it later, in any order; a run lists the requests that it
--   finished. The event stream is one as well: renders, callbacks of the browser and timers in any
--   order. A timer is set with the time at which it is due, and the runtime is taken to run it
--   before it handles an event behind that time. The buffer of the log viewer is a step relation
--   too, for one choice of the limit. The redirects of the gate are followed on fuel, and the loop
--   of `freeName` runs on as much fuel as there are names, and one more. A bulk action and an import
--   are functions on the state of a manager. The draft of the variables and the domains panel are
--   step relations; the identity of an array that a query holds is a number. A modal dialog is taken
--   to cover the rows behind it. The lookups of a crumb are values, and their answers a list in the
--   order of arrival.
--
-- Parameters
--   Code outside the repository is an argument. Host has the servers' answers to `fetch`, by the
--   history of requests, with `process.env`, `Bun.YAML` and `randomBytes`. `localeCompare` is a
--   Boolean test `after`; IsCollation says that it is a consistent comparator, and TellsApart, a
--   condition, that it takes no two of some keys for equal. `Date.parse`, `Date.now`, the clock,
--   `URL.parse` and `Buffer.from` are arguments, and so is the number of users that better-auth
--   creates for a request, with the hypothesis that only a sign-up creates one. Browser has the
--   encoders of URLs and `JSON.stringify`, Window the parsers of JSON and HTML, Router the router's
--   reading of an address; IsShorter, ReadsNext and the equations beside them say that it reads a
--   query that is shorter than its address, and reads a path back from what `URLSearchParams`
--   writes. Json is `JSON` on lists of texts, and IsFaithful says that it reads back what it wrote.
--   The manager's answers to a bulk action and to an import are functions on its state.
--
-- Not modelled
--   Console output and the HTTP headers of the script; React views; the manager (Rust) and the shell
--   scripts; fractions (percent). The files of apps/web/src/components/ui are copies of the
--   component library Arc with few changes; what the program uses of them stands in the events of
--   its own components. A YAML value of compose is a null, a Boolean, a natural number, a text, a
--   sequence or a mapping; a compose file whose root has no mapping of services is `none`. `Number`
--   of the bytes of an access line is a double that is never Infinity.
pub mod Base
pub mod Text
pub mod Access
pub mod Api
pub mod Auth
pub mod Bulk
pub mod Crumbs
pub mod Domains
pub mod Dotenv
pub mod EnvEditor
pub mod Events
pub mod Format
pub mod Inbox
pub mod LogView
pub mod Metrics
pub mod Migrate
pub mod Ports
pub mod Session
pub mod Trail
pub mod Transfer
