-- ===== src/Lib.antt =====
-- A verification library for kumolo, a local emulator of AWS services written in Go.
--
-- The program serves S3, DynamoDB, KMS, Cognito and STS over HTTP. For each service a router
-- dispatches a request to a handler, which validates it and calls a storage that keeps its state in
-- memory and in files. This library models some of its parts.
--
-- The first is the DynamoDB expression language, the part of the DynamoDB service that decides which
-- items a request reads or writes and what of them it returns or changes. A handler first checks that the placeholder maps and the expressions name each other. A filter or a
-- condition is then tokenized, parsed to a tree of conditions, its placeholders are checked, and the
-- tree is evaluated against items; a projection is parsed to a tree of attribute names and list
-- indexes, and applied to items; an update gives operations on attributes and on document paths.
--
-- The second is the storage of the KMS service: a directory for each key, with its metadata, material,
-- policy, tags, rotations and grants, and a directory of aliases. A call takes the lock, reads the
-- metadata, checks the state of the key and the limits, and writes one file or a few; the handlers and
-- the S3 service use it through ResolveKeyForEncryption and the calls that are modelled here.
--
-- Files, and what they model (paths from the repository's root):
--   Prelude, Prelude/...   tests, lists, results of Go functions (a value, an error, a panic), bytes
--   Dynamo/Value           the values that encoding/json decodes, maps as entries, library functions
--   Dynamo/Typed           the typed values of DynamoDB ({"S": ...}, {"M": ...}, {"L": ...})
--   Dynamo/Token, Lexer    tokenKind, exprToken, tokenizeExpr: internal/dynamodb/expression.go
--   Dynamo/Operand         exprOperand and resolve, dynamoAttrSize: the same file
--   Dynamo/Compare         dynamoValueCmp, matchesSortKey: internal/dynamodb/storage_query.go
--   Dynamo/Cond            condNode and eval: internal/dynamodb/expression.go
--   Dynamo/Parser          exprParser and its methods, parseFilterExpr: the same file
--   Dynamo/Refs            validateExprRefs, refsInExpr, validateUnusedExprRefs: the same file
--   Dynamo/Filter          evalFilterExpr, applyFilterExpression: the same file
--   Dynamo/Projection      projNode, addPath, projectValue, apply: the same file
--   Dynamo/Projection/Text parseProjectionExpression, applyProjection(ToItems): the same file
--   Dynamo/DocPath         parseProjPath: the same file; resolveAttrName, parseUpdatePath:
--                          internal/dynamodb/handler_helpers.go
--   Dynamo/Update          applyAddOp, applyDeleteOp, setUnion, setDifference:
--                          internal/dynamodb/handler_helpers.go
--   Dynamo/Update/Nested   applyNestedSet, applyNestedRemove: internal/dynamodb/storage_item.go;
--                          resolveUpdatePath, setOperand, applyListAppendOp:
--                          internal/dynamodb/handler_helpers.go
--   Kms/Types, Specs       the data, references and tables of internal/kms/storage_types.go
--   Kms/Disk, Io           the files and directories, and the calls of os, crypto/rand and time that
--                          internal/kms/storage.go makes; Io/Triple, Io/Runs: reasoning about them
--   Kms/Keys, Aliases, Lifecycle, Rotation, Tags, Grants, Encryption
--                          the methods of Storage: internal/kms/storage.go
--   Kms/Valid, Valid/...   the validity of the disk, and each method with an invariant of it
--   Kms/Reading            the methods that only read
--   Kms/Calls, Calls/...   sequences of calls, and what holds along them
--   Cognito/Password       internal/cognito/password_policy.go
--   Cognito/Totp           internal/cognito/totp.go
--   Examples               tests, and the results at concrete inputs
--
-- How the model stands to the code. A string is its list of bytes; upper and lower case, and blanks,
-- are those of ASCII. A map is a list of entries, of which a read finds the first; the code visits
-- maps in no fixed order, and the model in theirs. A float64 is the natural number of its bits. A
-- function that returns an error gives a result that is a value, an error, or a panic: a type
-- assertion with one result panics where it does not hold, and so does an index out of range. Values
-- that the code changes in place are returned changed. The functions of the Go library that depend on
-- more than bytes (json.Marshal, strconv.ParseFloat and FormatFloat, float comparison and addition,
-- base64 decoding) are the fields of the record Platform, and a theorem that relies on one of them
-- names what it relies on.
--
-- How the KMS model stands to the code. A call is a function of the world, which is the disk and a
-- count of ticks. At each tick, that is at each call of the operating system, the environment (Env)
-- says whether the call goes as it should or fails; a write may also fail after it has emptied the
-- file, which leaves a file that does not parse (torn), or when the file is closed. The environment
-- also gives the random bytes, the time and the private key of generateKeyPair. A file that was
-- written is read as the value that was written. What a failed call has written stays. Err* values are constructors of KmsError, and wrapping with %w
-- keeps them; the texts of errors and the log are left out. The IDs of keys and grants are names
-- without path separators, and an alias, whose file name is its escaped name, is its name. A directory
-- lists its entries in the order of the model. Times are whole seconds. A method holds its lock from
-- start to end, so calls follow one another; EnsureAwsS3Key and ResolveKeyForEncryption take the lock
-- several times, and the model lets no other call come between.
--
-- From the Cognito service there are two checks: of a password against the policy of its pool, and of a
-- one-time code. A password is the list of the runes that a loop over it visits. The classes of the
-- package unicode, base32 decoding and HMAC-SHA1 are parameters, and so is what json.Unmarshal makes of
-- a stored policy. A time is not negative.
--
-- Fuel. tokenizeExpr and refsInExpr run on the length of the text, of which each round uses a byte.
-- The parser's nesting runs on the number of tokens, of which each nested parse has used one; the
-- loops of AND, OR, IN and of a path run on the tokens that are left. A path's `[n]` steps run on the
-- length of what is left of the part. A run that ends for want of fuel is a result of its own,
-- `exhausted`; the scan of refsInExpr, which has no errors, stops.
--
-- Not modelled: parseUpdateExpression and the storage operations of DynamoDB (items, query, scan,
-- transactions, streams, PartiQL, tables, tags, backups); the handlers of KMS, which check requests and
-- call the storage and the library's ciphers, and generateKeyPair; of Cognito, all but the two checks;
-- S3 and STS; the routers, the configuration and the command, which are HTTP and wiring; and the
-- generators under tools.
pub mod Prelude
pub mod Dynamo
pub mod Kms
pub mod Cognito
pub mod Examples
