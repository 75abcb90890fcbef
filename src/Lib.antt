-- ===== src/Lib.antt =====
-- A model of the core of safely, a C++ library for embedded and POSIX programs: its bounds-checked
-- views of arrays, its circular buffer, its counters, its text and number parsers, its encoders and its
-- tree of values.
--
-- Parts and files, each with the modules of its laws below it:
--   Index            cppext/index.h. An index, whose all-ones value is "no index".
--   Span             cppext/halfopen.h, halfopen.cpp. A half-open range of indexes (`Span`).
--   Ordinator        cppext/ordinator.h. A pointer that walks up to a length.
--   Indexer          cppext/buffer.h and `copyObject` of cppext/platform.cpp. An ordinator over an
--                    array: the reading side here, the writing side in Indexer/Writing.
--   CircularIndexer, CircularBuffer
--                    cppext/circularindexer.h, circularbuffer.h. A FIFO with two flags; its abstract
--                    view is the bounded queue of CircularBuffer/Queue.
--   CountDown        cppext/countdown.h. A counter that the transcoder uses.
--   Utf8             cppext/utf8.h, utf8.cpp. The bytes of UTF-8; Utf8/Encode adds the writing of one
--                    character, from system/utf8converter.cpp.
--   Transcoder       system/utf8transcoder.h, utf8transcoder.cpp. `Utf8Escaper`.
--   Unescaper        The same files: `Utf8Decoder`; and the hexadecimal digits of cppext/char.cpp.
--   NumberParser     cppext/numberparser.h, numberparser.cpp, numberpieces.h. `PushedNumberParser`.
--   Crc16m           cppext/crc16m.cpp. The Modbus CRC by its table.
--   Extremer         cppext/extremer.h. The least or greatest of the values shown.
--   Cstr             cppext/cstr.cpp and `isPresent` of cppext/char.cpp. The searches and the ends of a C
--                    string; `same` of cppext/textkey.cpp.
--   PushedParser     cppext/pushedparser.h, pushedparser.cpp. A tokenizer fed one byte at a time.
--   PushedJson       cppext/pushedjsonparser.h, pushedjsonparser.cpp. JSON events from the tokens, and
--                    the statistics of their nesting.
--   AbstractJson     cppext/abstractjsonparser.h. The recursive user of those events, over any constructor
--                    of values.
--   TransactionalBuffer
--                    cppext/transactionalbuffer.h. An `Indexer` that goes back where something failed.
--   Cycler           cppext/cycler.h, cycler.cpp. A counter modulo a length.
--   MiniMath         the integer routines of cppext/minimath.h and minimath.cpp.
--   CharScanner      `ByteScanner` of cppext/charscanner.cpp. Numbers of up to four bytes, in both orders.
--   BigEndianer      cppext/bigendianer.cpp. Numbers of two and four bytes over an `Indexer`.
--   BitBanger        cppext/bitbanger.h. Bits, fields of bits, and, in BitBanger/Wad, groups of bits.
--   Bitwise          cppext/bitwise.h. Fields by offset and width.
--   CharFormatter    cppext/charformatter.cpp. Numbers and text printed into an `Indexer`, and, in
--                    CharFormatter/Parsing, whole numbers parsed from one.
--   Chain            system/chain.h. The vector of pointers and its scanner.
--   ChainSorter      system/chainsorter.h. The search of a chain in order, and its repair.
--   UrlText          system/urltext.h, urltext.cpp. Lengths of escaped text, and the decoder.
--   PathParser       system/pathparser.h, pathparser.cpp, with the converter of cppext/converter.h.
--   Storable         system/storable/storable.h, storable.cpp. The nodes of a tree of values; Storable/Wad
--                    their children, Storable/Path the ways between them, with `toIndex` of
--                    cppext/textkey.cpp, Storable/Changes what goes through a whole tree, Storable/Reuser
--                    the reuse of a node's children and Storable/Freezing what holds its watchers back.
--   GatedSignal      system/gatedsignal.h, gatedsignal.cpp. A signal that waits behind gates.
--   Twiddler         cppext/twiddler.h, twiddler.cpp. A pulse width by two integers.
--   FdSet            posix/fdset.h, fdset.cpp. A set of file descriptors (`FDset`).
--   NanoSeconds      posix/nanoseconds.h, nanoseconds.cpp. Sums, differences and division of times.
--   Tests            Runs at concrete values.
--
-- An `Indexer` inherits an `Ordinator`, which is its field `ord`; a `CircularBuffer` inherits a
-- `CircularIndexer`. The parsers hold a `Span` and use the searches of `Cstr`; the escaper is fed bytes
-- that `Utf8` classifies and counts them by a `CountDown`. The formatter feeds a `PushedNumberParser` and
-- prints by the logarithms of `MiniMath`; paths are read from a `Chain` by its scanner. A node of a tree
-- owns its children by a `Chain`, and finds others along a path that `PathParser` has taken apart.
--
-- Conventions. A method that changes its object returns the new object beside its result. Names are the
-- source's in lower case with underscores; overloads and operators have words of their own, told at the
-- definition. An `unsigned` is a natural number below 2^32, a `uint64_t` one below 2^64, and sums,
-- differences and products are taken modulo these where the source lets them wrap. A byte is a natural
-- number below 256. Memory is a list and an address a position in it, with null at 0; reading and
-- writing outside the list has no counterpart, and `Fits` (Indexer/Contents) says when a view lies
-- within it. A C string is the list of the bytes before its null.
--
-- Loops are recursion on the text or on the count that they run over. The loop of `forEach` is on fuel,
-- and one more than the number of items is proved to be enough; `Index::take`, which calls itself, is on
-- fuel too, and `none` stands for a call that has not returned; the encoder of `UTF8` sends at most five
-- bytes behind the first, so six rounds of fuel end it. The loops of `Cycler::unwrap` are on fuel, and
-- one round is proved to be enough for lengths up to 2^31; the power of `rpepow10` halves an `unsigned`,
-- so 32 rounds end it. The loops of paths and of scanners are on fuel, and one round more than there are
-- pieces, items or bytes is proved to be enough; so is one more than there are digits for a number that
-- is parsed, which makes eleven for an `unsigned`.
--
-- A signed integer is one of Prelude/Int, where an `unsigned` that becomes an `int` is negative from 2^31
-- on. Sums and differences of signed integers are without bounds; the source leaves their overflow
-- undefined, and the search of a chain gives `none` for it. The loop of `NanoSeconds::modulated` is on fuel,
-- and more rounds than there are nanoseconds are proved to be enough.
--
-- The loops of `parseChild` and `parse` are on fuel, and one round more than there are bytes to come is
-- proved to be enough. The parser reads a member of its parent before it looks whether that is null: the
-- model marks such a read.
--
-- A pointer is a number, null is 0, and `sizeof(T*)` is 8. A `Chain` has no registered scanners, since
-- what the registry holds, and adjusts, are copies; it notes what it has deleted. To clip one past its end,
-- which erases outside the vector, has no result.
--
-- The nodes of a tree are a function of their addresses, from 1 on; a new node takes the address behind
-- all others, as if memory were never used again, and a deleted node stays as it was. The calls of the
-- watchers and of the mirror are recorded, and do nothing to the tree. A notification climbs to the root,
-- and more rounds than the address of its node are proved to be enough, since a parent is older than its
-- children; for the search for changes, one more than the number of younger nodes is. `getRoot` has no
-- such bound. What counts the values of a tree, resolves, copies or moves it is on fuel without one.
--
-- Not modelled: the numbers and the enumerations of nodes, and the store that trees are loaded from
-- (the rest of system/storable); floating point, allocation, the classes that wrap system calls or
-- hardware, and the copies of libusb and libftdi. `isdigit` and `isspace` are those of the C locale.
pub mod Prelude
pub mod Index
pub mod Span
pub mod Ordinator
pub mod Indexer
pub mod CircularIndexer
pub mod CircularBuffer
pub mod CountDown
pub mod Utf8
pub mod Transcoder
pub mod NumberParser
pub mod Crc16m
pub mod Extremer
pub mod Cstr
pub mod PushedParser
pub mod Tests
pub mod PushedJson
pub mod AbstractJson
pub mod Cycler
pub mod TransactionalBuffer
pub mod Unescaper
pub mod MiniMath
pub mod CharScanner
pub mod BitBanger
pub mod Bitwise
pub mod BigEndianer
pub mod CharFormatter
pub mod Chain
pub mod PathParser
pub mod ChainSorter
pub mod UrlText
pub mod Storable
pub mod FdSet
pub mod NanoSeconds
pub mod Twiddler
pub mod GatedSignal
