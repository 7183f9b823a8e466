-- ===== src/Lib.antt =====
-- LLP_base3: a tree database in one file, with an interactive mode, a server that answers queries
-- and a client that parses them. This library models the storage, both ways into it, and the way of
-- a command from the user's text by the client's scanner and grammar to a message, and of the answer
-- back.
--
-- The program. storage/OSFileAPI reads and writes a stream. storage/DataFileAPI lays a file out:
-- the meta data, a template of attributes, an array of the nodes' offsets by id, and behind them
-- the nodes and the chains of string nodes. storage/StorageFileInnerAPI works on these:
-- storageBaseApi.c on offsets and the array of ids, storageFileInner.c on nodes with values.
-- storage/StorageFilePublicAPI carries out what a message asks for. analyzer/rules.lex has the
-- words of the client's commands and analyzer/main.y their grammar, whose actions build a query
-- that parseQuery turns into a message of pblib/message.proto; server.c has the query carried out
-- by storage/handler.c and sends the answer back in parts. storage/Utils/initializer.c makes the
-- first schema of a file. In storage/UserAPI/InteractiveMode/interactiveMode.c the user gives a
-- schema and then commands, which storageFilePublic.c carries out; storage/Utils/parser.c carries
-- out those of a text file.
--
-- The files. Common has the shared lists, tests and machine words. OsFile is
-- storage/OSFileAPI/osFile.c with the calls of the C library (read_file is readFile, write_file is
-- writeFile). Schema has the structs of schema.h and node.h and, in Schema/Sizes, getRealNodeSize
-- and getIdArraySize. DataFile is dataFile.c (read_tree_schema is readTreeSchema, and so on).
-- BaseApi is storageBaseApi.c, Inner is storageFileInner.c, Public the part of storageFilePublic.c
-- that works on messages, Commands its part for the interactive mode and storage/Utils/parser.c.
-- Text is storage/Utils/sstring.c. Message has the structs of pblib/message.pb.h, Client the
-- grammar's actions and parseQuery, with the rules of rules.lex in Client/Lexer, the productions
-- in Client/Grammar and, in Client/Sending, what is sent for a text. Exchange has both programs
-- together, with their set-up. Initializer is initializer.c and initEmptyFile of dataFile.c,
-- Handler is handler.c, Server the loops that answer and print, Socket the callbacks of
-- analyzer/common.c, Interactive is interactiveMode.c, Print what storageFileInner.c prints of a
-- file, Format the conversions of printf. OsFile/Disk has the files by name (openOrCreateFile,
-- deleteFile, and openForse of dataFile.c). Store has the theorems about files (those about chains
-- of string nodes in Store/Strings), Ends those about loops that end, Reads those about functions
-- that only read the file; Tests has runs and witnesses.
--
-- The state. A World is the bytes of the open file, the position of the stream and the allocator's
-- usable sizes; a function of the program is an action on it that returns, faults, or runs out of
-- fuel. A fault is what C leaves undefined: an access outside a block, or a use of what was never
-- set. A buffer is the list of its bytes that are set, a char* the bytes of memory from there on.
-- What a block of malloc holds before it is set, where it reaches the file, is an argument (fresh).
-- Numbers are natural numbers, and uint64_t wraps around at 2^64 where the code can get there; a
-- float is its bits.
--
-- Fuel. The walks along string chains and the removal of descendants take fuel, since the chains
-- come from the file; send_response takes one more round than the text has characters, and
-- parse_file two more than the file, since each round reads a character or meets the end. A question
-- of initFile is asked as often as the input has characters, and once more: each time takes a word,
-- and when the input has ended the program asks for ever. The scanner takes a round for each
-- character of the text, since each match has one.
--
-- Not modelled: the buffering of stdio (what is written is in the file at once), a full disk, a
-- failing malloc, free, what system calls do beside what they return, nanopb, the prompts,
-- storageGetHelp and printMemory. The scanner is what flex documents of its rules: the longest
-- match, and of several rules the first. The parser that bison generates is a parameter, with the
-- hypothesis that it hands on the commands of the grammar; Client/Grammar/Parse has one that does.
-- What the scanner echoes of other characters is not printed. A struct that is read short is a
-- fault. Where a call does not compile (storageFilePublic.c, lines 20, 26 and 69, and handler.c,
-- lines 84 and 150) the call that is meant is modelled. The blocks of dmalloc in main.y are taken
-- as zeroed, and so are messages before they are decoded. The text file that initialize parses is
-- taken to be another than the data file.
pub mod Common
pub mod OsFile
pub mod Schema
pub mod DataFile
pub mod BaseApi
pub mod Inner
pub mod Initializer
pub mod Store
pub mod Text
pub mod Format
pub mod Message
pub mod Server
pub mod Client
pub mod Public
pub mod Commands
pub mod Handler
pub mod Print
pub mod Interactive
pub mod Socket
mod Tests
pub mod Ends
pub mod Reads
pub mod Exchange
