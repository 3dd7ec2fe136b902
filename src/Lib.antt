-- ===== src/Lib.antt =====
-- sqlite3gen generates C++ classes for sqlite3 tables from a schema file, and comes with aes_vfs, a
-- sqlite3 VFS that keeps a database encrypted on disk. This library models aes_vfs from the cipher
-- of a page up to reads and writes of byte ranges, the container library under it, the validation
-- of schemas, and the three emitters of the generator.
--
-- Parts, and the files that model them:
--
-- aes_vfs/PageCipher.cc is Vfs/Cipher: `set_key`, `make_iv`, `encrypt_page`, `decrypt_page`. A
-- buffer is a function from an index to a byte (Vfs/Memory). The mbedtls functions are the record
-- `Mbedtls` of Vfs/Platform, with what their documentation says in `IsMbedtls`.
--
-- aes_vfs/DiskPage.cc is Vfs/Disk: a page number, a buffer and a dirty flag; `seek`, `read`,
-- `write`, `flush`. The system calls are the record `Posix` of Vfs/Platform, which may fail;
-- `IsPosix` states what POSIX says of a regular file on which no call fails. Offsets wrap at 2 ^ 32
-- where the source multiplies 32-bit numbers; Vfs/Disk/Slots gives the count of pages below which
-- nothing wraps.
--
-- aes_vfs/PageCache.cc is Vfs/Pages: the pages in memory by their addresses, the list of pages, the
-- list of idle pages, and the index. `get_page` pins a page and `release_page` lets it go and
-- evicts; `flush_pages`, `truncate_pages` and `close_pages` are `flush`, `truncate` and the
-- destructor. A client's view of a page is its cached copy, or else what the file decrypts to
-- (Vfs/Pages/Invariant).
--
-- aes_vfs/DiskCache.cc is Vfs/Cache: a byte range is cut into pieces, one for each page, which
-- `read` and `write` copy.
--
-- aes_vfs/dll3.h, dll3.tcc: `DLL3::List` is the links of its items and its two ends (Dll/Links); what
-- they represent is the sequence of the items (Dll/Sequence), which the containers above it use. A
-- client walks a list from an end along the links (Dll/Links/Walks). A hash has its hash of a key
-- and its hash of an item apart, so different keys may have one hash.
-- `DLL3::Hash` is a table of buckets that rehashes (Dll/Hash), and `DLL3::HashLRU` a list in the order
-- of use beside such a table (Dll/HashLru). The page cache takes an index by its interface
-- (Vfs/Index), which Vfs/Index/Table fills with the hash table. The word behind the end of the
-- table of primes, which `_rehash` may read, is a parameter.
--
-- aes_vfs/aes_vfs_file.cc, aes_vfs.cc: the calls of sqlite3 on a file, and the list of open files
-- (Vfs/Files), whose sync writes the dirty pages and then the file (Vfs/Files/Sync); the calls that ask the system for a path, the time or a sleep (Vfs/System), over the
-- record `System`. aes_vfs/dbcipher.cc: `main` with the loops that encrypt and decrypt a
-- whole file (Vfs/Dbcipher), on fuel; more fuel than pages is enough.
--
-- aes_vfs/LockWait.h (Vfs/Locks): the counts of `Lock`,
-- the flag of `Lockable`, the deadline of `Waiter`, whose seconds and nanoseconds are not negative,
-- and the waits of `Semaphore`; the calls of
-- pthread are events in the order in which they are made, and what other threads do is the list of
-- the wake-ups.
--
-- emit.h: the names that the emitters write for a type (Emit/Types), and the argument lists
-- (Emit/Common). emit_proto.cc is Emit/Proto, emit_header.cc Emit/Header, emit_source.cc
-- Emit/Source. An emitter is a function from a schema to the list of its statements, since its
-- tests read the schema only; Emit/Machine is the meaning of the statements, no code of its own: it
-- runs them on the map of patterns and the output streams. The templates, which the build generates, are a parameter of the machine: a list
-- of literals and patterns for each name. A pointer that the validation did not set is followed to
-- an error. Emit/Words is about what a run leaves in a stream, Emit/Source/Columns and
-- Emit/Source/QuestionMarks about what the emitter of a table sends to the lists of its SQL
-- statements, Emit/Linked about the pointers that it follows.
--
-- template_to_c.cc: the escape of a template's text (Template/Escape), the cutting of its body into
-- literals and patterns (Template/Compile), the lines of a file of templates (Template/Lines), and the
-- loop that reads them (Template/Files);
-- template_patterns.cc: the look-up of a pattern's value (Template/Patterns).
--
-- main.cc (Driver): the checks of the arguments, then the validation and the three emitters; the
-- parser, which bison generates, is a parameter.
--
-- parser.h, parser.yy: the schema as the parser builds it (Schema), the validation of it
-- (Schema/Validate), and what the validation takes (Schema/Tables, Schema/Selects, Schema/Links).
--
-- Loops are recursions on what they walk. The walk of the pages of a range runs on the count of its
-- rounds, which the source's bounds give (Vfs/Cache/Pieces). The eviction loop recurs on the list
-- of idle pages.
--
-- Not modelled: the text of the templates, line numbers in the output of the template compiler,
-- what the emitters print on the terminal, the flex scanner and the bison grammar with its actions,
-- the tables of pointers to the callbacks, the rounding of the Julian day to a `double`,
-- the magic numbers of the containers, and obj_sample.cc, which is generated.
pub mod Base
pub mod Dll
pub mod Vfs
pub mod Schema
pub mod Emit
pub mod Template
pub mod Driver
pub mod Tests
