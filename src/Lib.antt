-- ===== src/Lib.antt =====
-- The Sawtooth SDK for Python: what a transaction processor or a consensus engine is built with, and
-- the two transaction families that come with it as examples.
--
-- The parts and how they interact. A transaction processor opens a stream to the validator
-- (sawtooth_sdk/messaging), registers its handlers, and then takes requests from the stream, finds
-- the handler of each and sends back how it ended (sawtooth_sdk/processor/core.py). A handler reads
-- and writes the validator's state through a context (sawtooth_sdk/processor/context.py). The
-- families xo (examples/xo_python/sawtooth_xo/processor) and intkey
-- (examples/intkey_python/sawtooth_intkey/processor) are such handlers. A consensus engine is run
-- by sawtooth_sdk/consensus/zmq_driver.py, which hands it the validator's notifications, and sends
-- its requests through sawtooth_sdk/consensus/zmq_service.py.
--
-- Base: shared types and lemmas. A text is the list of its code points; `Dict` is an association
-- list in the order of insertion; `Exec` is state passing with exceptions as values, where what was
-- written before a raise stays written; `Platform` holds what Python gives and no code here
-- defines: UTF-8, SHA-512, and the Unicode tables that `int` reads. `Ascii` is one platform.
--
-- Messaging: sawtooth_sdk/messaging. `Future` is future.py: the futures stand in a store, since the
-- caller and the collection share them, and the collection holds their places. `Stream` is
-- stream.py, one atomic step for each operation: `send`, `send_back`, `receive_message` for a round
-- of `_receive_message`, `monitor_disconnects`, and `connect` for a round of `run`. `Tracked` and
-- `Pending` have the steps as a relation, and what holds in the states that they reach; `Delivery`
-- is about what one incoming message does. The sockets, the event loop, and interleavings within
-- one step are not modelled.
--
-- Processor: `Context` is context.py over a peer, which stands for the validator and the protocol
-- buffers; `Validator` states what the validator's documentation promises for one authorized
-- address, and has a validator in memory that keeps the promise. `Link` is what core.py uses of a
-- stream. `Core` is `_process` and the search for a handler, which `Core.Search` is about,
-- `Core.Register` the registration, `Core.Loop` is `_process_future` and `start` over a sequence of
-- what arrives. The second loop of `start` takes fuel: with a future to ask, two more than the
-- messages to come are enough.
--
-- Xo: `Payload` is xo_payload.py; `Board` is `_update_board`, `_update_game_state` and `_is_win` of
-- handler.py, and `Handler` is its `apply`; `Game` is `_serialize` and `_deserialize` of
-- xo_state.py, and `State` the rest of it with the cache of addresses. `Rules` says what the game
-- is, apart from the code; `Good`, `Stored`, `Methods`, `Tables`, `Writes` and `Updates` are about
-- the games in the state, `Requests` about the payloads that are accepted, `Ledger` about a
-- transaction as a whole, and `History` about sequences of them. What is written to the log is not
-- modelled.
--
-- Intkey: `Payload` is the unpacking and validation of handler.py, `Verbs` its three verbs,
-- `Handler` its access to the state and its `apply`. `cbor` is a parameter, of which one instance is
-- in `Plain`. `Amounts`, `Unpack`, `Ledger` and `History` are about them.
--
-- Consensus: `Service` is zmq_service.py, over the exchange of one message; `Verdicts` compares its
-- methods with one table of statuses. `Driver` is zmq_driver.py over a sequence of what arrives;
-- `Startup` is about its registration and the wait for activation, `Meanings` and `Updates` about
-- its loop. The loop of the registration takes fuel: one more than the validator is not ready is
-- enough. `start`, which joins the driver's thread and the engine, is not modelled.
--
-- Signing: sawtooth_signing. `Hex` is what it uses of `binascii` and `bytes`; `Keys` is secp256k1.py
-- over the package of that name, which is a parameter, and the interface of core.py; `Signer` is
-- __init__.py. `Sound` says what the clients rely on, `Bits` is a curve to run the program with.
--
-- Batch: the transactions and batches that the commands under examples build and sign. `Messages`
-- has the headers, over a serializer that is a parameter, and the steps that all commands share;
-- `Intkey` is create_batch.py, `Words` populate.py and `Random` generate.py of
-- examples/intkey_python/sawtooth_intkey/client_cli, each with its own payload and transactions,
-- `Chunks` the lists of batches of load.py, and `Noop` create_batch.py of examples/noop_python.
-- What is drawn at random is an argument. `Signed`, `Accepted`, `Generated` and `Populate` are
-- about them; `Plain` is a serializer.
--
-- Testing: sawtooth_processor_test, and the message factories of the examples. `Types` is
-- message_types.py, `Comparators` and `Mock` are mock_validator.py from the socket on, `Factory` is
-- message_factory.py, `XoFactory` and `IntkeyFactory` are those of the examples. `Order`, `Expect`,
-- `ExpectOne` and `Agrees` are about them.
--
-- Load: the workload of intkey, examples/intkey_python/sawtooth_intkey/client_cli. `Intkey` is
-- intkey_workload.py, `Generator` is workload/workload_generator.py, one call at a time. `Tracked`,
-- `Validators` and `Callbacks` are about the batches that are tracked, `Status` about those that
-- outlive a validator.
--
-- Client: `Rest` is what the clients share, with HTTP, YAML and the clock as parameters: the loop
-- that waits for a batch goes through a list of what the clock shows, and ends with it. `Xo` is
-- examples/xo_python/sawtooth_xo/xo_client.py, `Intkey` is
-- examples/intkey_python/sawtooth_intkey/client_cli/intkey_client.py. `Posted` says
-- what is asked over HTTP and what the answers mean, `Waits` is about it, and with it
-- `Understood` is about `XoClient`.
--
-- `Commands` is examples/xo_python/sawtooth_xo/xo_cli.py after its arguments have been parsed, and
-- `Shown` is about `xo show`. `Noop` of Load is
-- examples/noop_python/sawtooth_noop/client_cli/workload.py.
--
-- Config: `Paths` is sawtooth_sdk/processor/config.py, `Xo` the config of
-- examples/xo_python/sawtooth_xo/processor/config/xo.py and `load_xo_config` of its main.py,
-- `Chosen` is about the setting that wins.
--
-- Not modelled: the parsers of arguments, the command lines of intkey and noop, the set-up of the
-- log, the test case of sawtooth_processor_test, which starts processes, and what the build
-- generates from protos.
pub mod Base
pub mod Messaging
pub mod Processor
pub mod Xo
pub mod Intkey
pub mod Consensus
pub mod Signing
pub mod Batch
pub mod Testing
pub mod Load
pub mod Client
pub mod Config
