-- ===== src/Lib.antt =====
-- The Rust packages of ArmoniK.Api: the crate armonik-transport, which turns options into a
-- connection, and the crate armonik, the client and the server of the gRPC API.
--
-- The program's parts, and the files that model them (paths from the root of the repository):
-- * Transport models packages/rust/armonik-transport/src. Transport/Env is utils.rs (read_env,
--   read_env_bool). Transport/Args and Transport/Config are config.rs: ClientConfigArgs::from_env,
--   ClientConfig::from_config_args. Transport/Options holds one function for each group of options
--   that from_config_args reads in turn, with its errors (Transport/Error). Transport/Connect is
--   connect.rs. Args/Reads, Config/Accepts, Accepted, Identity, Override, RateLimit, Connect/Fields,
--   Connect/Exact, Connect/Panics and Connect/Hosts hold theorems only, Toy and Tests concrete instances.
-- * Objects models packages/rust/armonik/src/objects: each type of the client beside the message that
--   it travels as, and the two conversions (`…_into` is `From` to the message, `…_from` is `From` back,
--   `…_back` relates them, `…_read` is what becomes of a value on its way where that is not the value).
--   Objects/Enums has a module for each enum that travels as a number, Objects/Convert the arms of the
--   macro impl_convert!, Objects/Filters the macros impl_filter! and impl_filter_condition!. Each service
--   has a folder for its messages: Submitter, Agent, Results, Tasks, Sessions, Partitions, Applications
--   and Events; Worker, Versions, Auth and HealthChecks are a file each. Requests or answers of several
--   calls that have one shape, as those of the calls on one session, are one type.
-- * Rpc models the generic half of a call: client_call for the bodies of impl_call! in
--   packages/rust/armonik/src/client, and unary, stream_client and stream_server for the three arms of
--   impl_trait_methods! in packages/rust/armonik/src/server/mod.rs. Rpc/Delivery and Rpc/Replies put
--   a network between the two.
-- * Server models packages/rust/armonik/src/server, a file for each service: …Service is the trait of
--   the handlers, …Wire what the generated client and the generated server have in common, and serve the
--   second made of the first.
-- * Client models the methods of packages/rust/armonik/src/client, a file for each service, with the
--   bodies of impl_call! in its Calls. Served has every call as data, with `perform` for what the client
--   does and `handle` for one run of the handler, with what the conversions exchange or lose written
--   out, and the theorems that compare the two. Of the results
--   and the submitter, the calls with logic of their own stand in Results and Submitter, in
--   Submitter/Filtered and Submitter/Fetched, the others in Results/Metadata and Submitter/Plain, and
--   Answered and Asked take the place of Served for all of them. Agent/Streamed and Events are calls with
--   streams. Maps is about the maps that are returned, Streams about answers that come over a
--   network, and Opening about Client::new and Client::with_config. Handlers holds concrete servers, and the
--   modules whose names end in Tests the theorems at them.
-- * Common holds the shared names, lemmas on lists and texts, Result for the `?` operator, and HashMap for
--   the maps of the standard library.
--
-- Interaction: Args feeds Config, Config feeds Connect; the methods of Client convert with Objects and
-- call a stub, whose server converts with Objects and calls a handler. A call takes and returns a state,
-- so that a handler can have any effect. A stream is the list of its items, and a network is a function
-- on streams that keeps to the relation Delivers for requests (a first part in order, then perhaps an
-- error) or Answers for answers (the same, up to the first error of the server, at which tonic ends a
-- stream). Where a theorem names no network, the server meets the client directly.
--
-- Parameters. Code of other crates is an argument: the record External (URIs, PEM, durations, header
-- values, the file system), the record Stack (rustls, hyper, tonic's channel), the environment, the
-- generated stubs, the handlers, and the order in which maps iterate (the record Iteration, whose law is
-- that every entry comes once). What is relied on is a hypothesis: BuildsParts (a URI that is built
-- has the parts that it was given), AssertsRateOnly (the channel panics only on a rate limit with a
-- zero half), NamesServer (the host of the override target is a server name), Delivers
-- and Answers.
--
-- Numbers. Counts that Rust parses as u64 and u32 are natural numbers with their bound in the parser;
-- fields of i32 and i64 are integers that the code only copies or compares. Bytes are numbers that
-- are copied. Nothing here runs on fuel: every loop is structural recursion.
--
-- Not modelled: tracing, backtraces and locations of errors; the serde derives and helpers; the
-- wrappers of vectors; asynchronous scheduling; the accessors of Client, which give each client the same
-- channel; the certificate verifier that accepts everything; the code that prost and tonic generate. The
-- maps of task options and of pod configurations are lists of entries that are passed on as they are.
pub mod Common
pub mod Transport
pub mod Objects
pub mod Rpc
pub mod Server
pub mod Client
