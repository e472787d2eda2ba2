-- ===== src/Lib.antt =====
-- userd is a small service that creates, reads, changes and authenticates users. This library
-- models it from the storage up to the HTTP interface, and states what makes each part correct.
--
-- Errors.antt: service/errors.go and service/storage/errors.go. The declared errors are a data
--   type, any other error is a number. `errgo` is a parameter with what its documentation promises;
--   Errors/Instance is a concrete one.
-- User.antt: service/user/user.go. A time is a number of nanoseconds.
-- Exec.antt: Go methods as functions from a state to an outcome (a value, an error, a panic) and
--   the state after; rules to prove something of a sequence of calls.
-- Storage: service/storage. Interface has the interfaces and KeyValue the storage of keyvalue.go
--   over any driver: `save` is Save, `get` Get, `find_by_email` FindByEmail, and so on. Local is
--   the driver of local.go on a heap of index objects, Redis that of keyvalue_redis.go and Etcd
--   that of keyvalue_etcd.go, each over its client library as a parameter; Keys says how one table
--   of texts holds the users and the indices. Tables is the storage over plain tables, which the
--   lawful drivers follow (Follows, Refinement, Local/Laws, Redis/Laws). Consistency states what
--   the tables have to do with one another, Save and Find what the methods do to consistent tables,
--   Directory the contract with the service, told by the users alone, Contract that the storage
--   keeps it, RoundTrip what is read after a write, Race two calls of Save at the same time, and
--   Dropped what becomes of the errors of the driver. encoding/json at a user is a parameter with
--   its round trip, which it has at texts that are valid UTF-8 and at times before the year 10000:
--   a text of the model is of that kind, and other texts and later times are left out. Etcd/Laws
--   takes the cluster at keys whose last step is a single name.
-- IdFactory: service/idfactory; Laws has the ids and tokens of the sequence, Restart what becomes
--   of a stored user when the process starts again, and Race two calls of NewUserID at the same
--   time. fmt.Sprintf, the width of a uint and uuid.New are parameters.
-- Hasher: service/hasher/bcrypt.go, over bcrypt as a parameter; Laws states what it keeps.
-- EventStream: service/eventstream and EventStreams of main.go; a broadcast is the list of the
--   goroutines that it starts. redigo, cores-go and the writer of a log are parameters.
-- Part: what a constructor that main calls comes to, a part or the end of the process; Part/Ready
--   says when there is a part.
-- Service: service. Backends has the interfaces of backends.go, the wrapper of backend_wrapper.go
--   and the world that a request changes, Users and Login the methods of service.go (`create_user`
--   is CreateUser, and so on), Create NewUserService, Collector collector.go. Effects, Methods,
--   Changes, Reset, Rehash and Authenticate state what the methods do over any storage that keeps
--   the contract, Success when they succeed, Recovery and Journeys several of them in a row. The
--   two goroutines of logEvent are listed in the world as tasks; Collector/Window lets them run in
--   any order, each at a time of its own, and Collector/Finish until none waits.
-- Api: http/writer.go (Writer), http/request_logger.go (Recorder, Logger), middlewares/welcome.go
--   (Welcome) and middlewares/v1/web.go: Errors the answer to an error, Handlers the handlers
--   (`serve_create_user` is CreateUserHandler.ServeHTTP), Routes the table of routes. A response
--   writer is the list of the calls made of it. Answers, Pages (also where a body cannot be
--   written), Atomic and Requests state what a request does, History the states that a server
--   reaches, Journey a creation and then a reading. Permissions is a table of the fields of a user
--   that each route may write; Permitted compares every request with it, and Verified tells of
--   users that no request marked as verified. gorilla/mux, Encode of encoding/json onto the
--   response writer and the form values of net/http are parameters.
-- System.antt: main.go, the server with the in-memory storage.
-- Startup: main.go from the flags to the mux. Startup.antt has the flags and the functions that
--   main calls (`user_storage` is UserStorage, and so on; `assemble` is the part of main in front
--   of the mux), Redis the pool of redis.go and how it dials, Server http/cli/server.go, Process
--   the mux and the handler that is served. Choices and Accepted say which flags main starts with,
--   Bounds how long a reset token lives, Redis/Laws what a dial opens and Process/Routing which
--   handler a request reaches. pflag, redigo, strings.Split at a comma, the capacity that make
--   grants, and of net/http the cleaning of a path, its own pages and listening are parameters.
-- Client: client. Client.antt has Execute of helper.go, Calls the calls of api.go, Network a client
--   whose requests reach the handlers. Replies has what a handler answers; Server, Changes, Journey
--   and Recovery compare the client's calls with the service. net/http and the decoders of
--   encoding/json are parameters.
-- Tests: a concrete codec and concrete dependencies, runs of the code, and each theorem at an
--   input.
-- Common: the names that all share; Common/Table is Go's map[string]string, as a function.
--
-- A request is one step on the world. Calls at the same time are modelled only at Save, in
-- Storage/Race, and at NewUserID, in IdFactory/Race. Loops are over lists; there is no fuel. Not
-- modelled: what log.Printf prints but for the line of a request, the logger and the curl log that
-- go-etcd is given, and JsonCall of client/api.go, which nothing uses. middlewares/v2 is empty.
pub mod Api
pub mod Common
pub mod Errors
pub mod User
pub mod Exec
pub mod Part
pub mod Storage
pub mod Service
pub mod IdFactory
pub mod EventStream
pub mod Hasher
pub mod System
pub mod Startup
pub mod Client
pub mod Tests
