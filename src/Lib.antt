-- ===== src/Lib.antt =====
-- A verification library for the Go SDK of the Flux chain: the checks of a transaction on the chain's side that
-- the SDK carries (chain/), and the client that builds, signs and sends transactions (client/).
--
-- The parts and how they interact. A Solana transaction is packed into a MsgTransaction by ToCosmosMsg
-- (chain/modules/svm/types/convert.go), checked without state by ValidateBasic
-- (chain/modules/svm/types/msgs.go) and with the account links by the SVM decorator of the ante handler
-- (chain/modules/svm/ante/svm.go). A program is uploaded as many such messages (client/svm/helper.go). A web3
-- wallet signs the EIP-712 typed data of a transaction, whose hash chain/app/ante/typeddata/typed_data.go
-- computes; another account may pay its fee, which chain/app/ante/fee.go takes. The signature decorator
-- (chain/app/ante/eip712.go) wraps the transaction with chain/app/ante/eip712_cosmos.go and wants the signers'
-- signatures of that hash, and the payer's. The client (client/chain/chain.go) keeps the sequence number of its
-- account, sends one transaction after another and collects queued messages into batches. The fnft, bazaar and
-- strategy modules check their own messages (chain/modules/fnft/types, chain/modules/bazaar/types,
-- chain/modules/strategy/types), and the event stream keeps its last height in a log
-- (chain/eventstream/types/wal.go).
--
-- The files:
--   Common       shared names, tests on numbers, lists, searches, texts as bytes, and Go's results:
--                a value, an error or a panic (Common/Calls);
--   Svm          Svm/Validate is ValidateBasic of both messages, Svm/Ante the decorator's AnteHandle, and
--                Svm/Convert is ToCosmosMsg;
--   Upload       CreateProgramUploadMsgs; Upload/Chunks is about the chunks, Upload/Groups about the
--                transactions that they are spread over;
--   TypedData    the data of typed_data.go; TypedData/Validate is validate, TypedData/Depend is Dependencies and
--                EncodeType, TypedData/Primitive is EncodePrimitiveValue and parseInteger, and
--                TypedData/Encode is EncodeData, HashStruct and ComputeTypedDataHash, described by the types and
--                the values alone in TypedData/Encode/Reference; TypedData/Format is Format;
--   Ante         Ante/Gas is the gas of signatures (chain/app/ante/ante.go), Ante/Fee the web3 fee decorator
--                (chain/app/ante/fee.go), Ante/Wrap is WrapTxToEIP712 (chain/app/ante/eip712_cosmos.go) over what
--                reflect sees of a message: Ante/Wrap/Names is sanitizeTypedef, Ante/Wrap/Walk traverseFields,
--                and Ante/Wrap/Pack extractMsgTypes and the rest; Ante/Verify is the signature decorator
--                (chain/app/ante/eip712.go), and Ante/Handler is NewAnteHandler (chain/app/ante/ante.go), which
--                runs the models of this program's decorators in its two chains: Ante/Handler/Steps is how a
--                context goes through a chain, and Ante/Handler/Order what each decorator may rely on;
--   Client       the state of chainClient; Client/Broadcast is prepareFactory, broadcastTx, syncNonce,
--                SyncBroadcastMsg and AsyncBroadcastMsg, Client/Batch is runBatchBroadcast,
--                Client/Queue is QueueBroadcastMsg and Close beside it, and Client/Sign is BuildSignedTx and
--                GetOrLinkSvmAccount (client/svm/helper.go) with SyncBroadcastSignedTx and
--                GetSVMAccountLink;
--   Nft          ValidateBasic of the fnft messages, and ValidateGenesis;
--   Bazaar       ValidateBasic of the bazaar messages; Bazaar/Genesis is ValidateGenesis and the proposals;
--   Strategy     the strategy module (chain/modules/strategy/types): Strategy/Address is ParseContractAddr and
--                StringifyContractAddr, Strategy/Prompt the templates of prompts, Strategy/Metadata the
--                metadata, and Strategy/Config the messages;
--   ChainId      the identifiers of chains (chain/types/chain_id.go): ChainId/Laws says which texts are
--                identifiers, and ChainId/Generate is about those that are made up;
--   Wal          SimpleFileWAL and MockWAL.
-- A module Laws or one named for what it proves holds theorems, a module Tests runs and instances. Functions
-- keep the names of the source in snake case; an early return is a line of a do block in the order of the
-- source, and a `Must…` call or an index out of range is `panic`.
--
-- Numbers are natural, with the wrap-around of uint32 and uint64 written where the source converts or adds. A
-- text is its bytes in Upload, TypedData, Ante, Client, Nft, Bazaar, Strategy and ChainId; in Svm, where texts
-- are only compared and parsed, it is a String.
--
-- Parameters, for code that is not in the repository: the Cosmos SDK's bech32 parser, denominations and account
-- retriever, its account and bank keepers and the keeper of the SVM accounts (records), the Solana library's
-- keys and builder (records with laws), go-ethereum's hash, parsers and paddings (a record with the lengths
-- that it documents), the texts that fmt makes of values (a record), the amino JSON of a transaction, the
-- decorators of the SDK, wasmd and IBC, secp256k1 and the decoder of encoding/json (a record), the keys of the
-- client and what they sign (a record with the law that a signature verifies), the node of the client (a
-- record; what it is to do for a theorem is the record Honest), and which calls of the operating system fail (a
-- record).
--
-- Fuel. Dependencies recurs through a table of types, with one more step than the table has entries: each call
-- that goes on finds a new type. EncodeData recurs into its data, with one more step than objects nest, and
-- Format with two more. The loop of CreateProgramUploadMsgs has one turn more than the program has bytes: each
-- turn passes over a byte at least. Where fuel could run out the model answers `stuck` or none, and theorems
-- show that it does not. The wait of broadcastTx has as many polls as its timer ticks before the deadline,
-- which is the source's own bound.
--
-- Not modelled: generated protobuf and gRPC code, the instruction builders that are generated from Solana
-- programs (client/svm/drift, client/svm/drift_pyth, client/svm/raydium_cp_swap), the native virtual machines,
-- the copies of other projects' modules (chain/modules/injective), queries that only forward to gRPC, examples
-- and scripts. Goroutines appear as the order of the events that a loop takes or of the steps of a relation; a
-- lock that is held for a whole operation is the operation being one step.
pub mod Common
pub mod Svm
pub mod Upload
pub mod TypedData
pub mod Ante
pub mod Client
pub mod Nft
pub mod Bazaar
pub mod Strategy
pub mod ChainId
pub mod Wal
