-- ===== src/Lib.antt =====
-- Verification of the MCMA libraries: TypeScript packages with which media services in a cloud talk
-- to one another and keep their data. A service has an HTTP API (base/api), a document table
-- (base/data, with a mutex kept as a record of the table), a worker that processes job assignments
-- (base/worker), clients of other services (base/client) and loggers (base/core). The packages for
-- AWS, Azure and Google Cloud implement the interfaces of the base packages.
--
-- Files, with the code that each is about:
--
-- CloudWatch: aws/logger/lib/cloud-watch-logger-provider.ts. CloudWatch cuts texts into messages
-- (byteSubString, the loop over a message) and batches them; CloudWatch/Process has the state of the
-- provider and processBatch, with sendLogEvents. The service is a parameter; the requests handed to it
-- are recorded, and those for which it threw.
-- Mutex: base/data/lib/document-database/document-database-mutex.ts. The calls lock, tryLock and
-- unlock of any number of objects, one function for the code between two awaits, run by a list of
-- events in any order.
-- DynamoDb/Mutex: aws/dynamodb/lib/dynamo-db-mutex.ts, which implements the interface of Mutex over a
-- client of DynamoDB. Its getLockData may send two commands, and what other clients do between the two
-- is a parameter; for Mutex, getLockData is one step.
-- Api: base/api/lib/http, with the texts of http-statuses.ts in Api/Statuses. Api/Controller has
-- mcma-api-controller.ts: the loop over the routes is choose, which lists the methods as it goes, and
-- what follows is respond. Templates of routes, JSON, the case of letters and the clock are parameters.
-- Api/Security: base/api/lib/security, with regular expressions and the secret as parameters. What an
-- object of the language inherits is part of the look-up of a key.
-- Api/Defaults: base/api/lib/routing/defaults, the handlers that create, get, update and delete, and the
-- functions of base/core/lib/model/mcma-resource.ts that they use. A hook that changes the resource
-- answers it changed. The parsed body of such a request is an object.
-- Api/Queries: default-query-route.ts of the same directory, with buildStandardQuery and helpers.ts of
-- base/data/lib/document-database/query.
-- Client/Http: base/client/lib/http/http-client.ts, the attempts of request; the HTTP library and the
-- authenticator are parameters. Client/Requests has its calls, prepareRequest and the address.
-- Client/Auth: base/client/lib/auth/auth-provider.ts.
-- Client/Services: base/client/lib/resources/service-client.ts and resource-endpoint-client.ts, which call
-- the HTTP client; Client/Manager has resource-manager.ts, with init in Client/Manager, query in
-- Client/Manager/Query and the calls for one resource in Client/Manager/Calls. What sends requests is
-- the platform, a parameter.
-- Core/Properties: checkProperty and ensureValidDateOrUndefined of base/core/lib/utils.ts; Core/Models
-- has constructors of base/core/lib/model over values of documents.
-- Core/Dates: isValidDateString of base/core/lib/utils.ts.
-- Queries: the filters and queries of base/data/lib/document-database/query.
-- Documents: the values of documents, with serialize and deserialize of
-- aws/dynamodb/lib/dynamo-db-table.ts, and the last slash of an identifier.
-- DynamoDb/Table: the operations of dynamo-db-table.ts over a document client that is a parameter, with
-- what is sent in DynamoDb/Client, the keys of documents in DynamoDb/Keys and build-filter-expression.ts
-- in DynamoDb/Filter. What every object of the language inherits is a parameter of the look-up of a name,
-- and the base 64 of a key, which may throw, is one of the table.
-- Firestore/Query: google-cloud/firestore/lib/build-firestore-query.ts, over queries of the SDK.
-- CosmosDb/Table: azure/cosmos-db/lib/cosmos-db-table.ts over a container that is a parameter, with withRetry
-- and its options in CosmosDb/Retry and parse-partition-key-and-guid.ts in CosmosDb/Keys.
-- Documents/Map: what a map from identifiers to documents is, for the tables of DynamoDB and Cosmos DB.
-- CosmosDb/Query: azure/cosmos-db/lib/build-query-definition.ts, over the filters of
-- base/data/lib/document-database/query.
-- Worker/Dispatch: base/worker/lib/worker.ts and worker-request.ts, over any type of request input and
-- any state.
-- Worker/Jobs: base/worker/lib/jobs, with the resources of base/core/lib/model that it uses.
-- Worker/Jobs/Helper has ProcessJobAssignmentHelper, an action on its fields and the state outside;
-- Worker/Jobs/Operation has ProcessJobAssignmentOperation. The document table, the resource manager,
-- the clock and the handlers of job profiles are parameters.
-- Tests: runs at concrete inputs.
-- Prelude: shared names, lists, texts, results of code that may throw.
--
-- Strings are native strings where they are only compared, and lists of UTF-16 code units where the
-- code walks them. Numbers are natural numbers; times are milliseconds. An exception is an error
-- result with its message. Loops of the source whose end depends on a service run on fuel: the paging
-- of log groups on the number of pages, with the assumption that the pages end within it; the rounds
-- of processBatch on a number that exceeds the number of waits in which events arrive by two, which
-- is enough since a round without arrivals empties the queue; the loop over a message on the number
-- of its code units, since each piece takes one at least. The loops of lock and tryLock are calls of
-- start that follow one another, so they need no fuel. The
-- four reads of getJobAssignment are one and a list of the three timeouts. The attempts of an HTTP
-- request are counted down from the configured number, which is one at least, and so are the retries of
-- withRetry. The messages of
-- exceptions that the language engine raises, on null for instance, are shortened.
--
-- Not modelled: the table of Firestore but for its query, the mutexes of Cosmos DB and Firestore, the
-- job routes, the authenticators, the logger, the configuration variables and the constructors of jobs
-- and locators, which are left for later; the SDKs and the glue code for them, the log, and the
-- vendored RSA library of base/encryption, which are not code of these packages' own logic.
pub mod Prelude
pub mod Api
pub mod Client
pub mod CloudWatch
pub mod Core
pub mod CosmosDb
pub mod Documents
pub mod DynamoDb
pub mod Firestore
pub mod Mutex
pub mod Queries
pub mod Worker
pub mod Tests
