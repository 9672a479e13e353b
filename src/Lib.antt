-- ===== src/Lib.antt =====
-- Verification of the dictionary daemon: a server that answers clients with the definition of a
-- word, from a cache or from a dictionary's web page, and the client that asks it. server.c runs
-- the event loop of eloop.c on its sockets, reads a message that client.c sends, keeps definitions
-- (string buffers of aostr.c) in the hash table of hmap.c, and gathers the matches of a page in the
-- list of list.c.
--
-- * Base and its children: lists over the native numbers, tests, bytes and blocks of memory, the C
--   library's decimal numbers, and `Run`, whose `fault` stands for undefined behaviour.
-- * Hmap (hmap.c, hmap.h): hmap as a record with one list of entries for each bucket; hmapCreate,
--   hmapCreateFixed, hmapAdd, hmapGet, hmapContains, hmapDelete, _hmapExpand, _hmapGetIndex,
--   hmapRelease and the iterator, over the keys and hash functions of hmapType. Bucket, Table,
--   Flatten and Expand are about the invariant, Refines and Update about the refinement to
--   functions from keys to values, Lookup about hmapGet after hmapAdd, Hash about the string hash, Iterate about the iterator and the
--   release, Fixed about fixed tables, Entries about what the map says of the entries. Whether
--   `malloc` finds memory is a parameter.
-- * AoStr (aostr.c, aostr.h): aoStr as its allocated block with offset, length and capacity; creation,
--   growth, appending, reading, slicing and duplication. The allocator is a parameter. Append and
--   Edit hold the theorems. AoStr/Search models the search for a pattern: Border is about matches of
--   its beginnings and the inner loops, Prefix about the prefix table, Scan about the search, First
--   about the first occurrence as a list function, and Find about aoStrContainsPattern and
--   aoStrContainsCasePattern. AoStr/Mime models the decoding of the Q encoding: Loop and Decode hold
--   the theorems. AoStr/Escape models aoStrCatPrintf and aoStrEscapeString: Written says
--   how a text is to be written, Grow and Text hold the theorems. AoStr/Split models aoStrSplit, with First about its first store, and AoStr/Compare the
--   comparisons and the case conversions.
-- * Eloop (eloop.c, eloop.h, and epoll_loop.c, which it includes on Linux): eloopCreate,
--   eloopAddEvent, eloopDeleteEvent, eloopPoll and eloopProcessEvents, with the callbacks and the back
--   end as parameters; the functions of epoll_loop.c are one back end, with epoll a parameter. Max
--   holds the invariant of the highest descriptor; Register and Round the theorems; Process models
--   eloopPoll and eloopProcessEvents. Eloop/Kqueue models the other back end, kevent_loop.c, with kqueue
--   a parameter: Sync and Reach are about what the kernel watches. Eloop/Lifetime models
--   eloopCreate and eloopRelease whole, with the blocks and the descriptor that they get and give back,
--   and Released is about it; `create` of Eloop is what eloopCreate makes where it succeeds.
-- * Inet (inet.c): the sockets, on every answer of the kernel and the resolver, which are a parameter;
--   the world counts open descriptors and address lists. Connect models inetConnect, Listen
--   _inetCreateServer and _inetAccept, Unix the sockets of AF_UNIX, each with its theorem; Failure holds
--   their lemmas.
-- * Server and Client (server.c, client.c): the message that the client writes, the parser
--   serverReadClientMessage, serverAccept on the event loop, and the loop of
--   serverSetFileDescriptorLimit. Message, Exchange, Accept and Limit hold the theorems. Server/Cache
--   models serverTransferToCache, serverInitDictionary, serverPesistToDb and
--   serverLookupClientRequest, Server/Reply models serverSendClientReply, and Conversation is about a
--   request and its reply; the web is a parameter. Server/Merriam models serverConsultMerriam and is about its array.
--   Answer is about clientFindDefinition with the server behind its socket. Server/Start models serverInit
--   with eloopCreate, from what the system and the database answer it, and Ready is about a first start.
-- * LinkedList (list.c, list.h): a heap of nodes with pointers; all operations, the sort and the
--   variants that lock. Chain, Cells and Ring are about the ring of nodes that a list is, Add, Remove
--   and Walk about the operations on it as operations on sequences; Single is about a list of one
--   element and Lock about the mutex. LinkedList/Sort models listQSort and the variants that lock: Array
--   and Places are about the ring as an array, Exchange about rearranged values, Pivot and Split about
--   listQSortPivot, Range and Ordered about mboxQSortHelper, and Whole about listQSort.
-- * HtmlGrep (htmlgrep.c, htmlgrep.h): gathering the contents that libxml2 finds in a list of strings,
--   and htmlConcatList, on the list of LinkedList and the strings of AoStr. Concat holds the theorem.
-- * Http (http.c, http.h) and Database (dbclient.c): the response of a page, its content type and
--   curlHttpGet; dbForEachRow, dbGetRowCount and dbConnect; with libcurl and SQLite as parameters.
--   Http/Gathered is about a page that arrives.
--
-- `unsigned int` has 32 bits, `size_t`, `unsigned long` and `rlim_t` have 64, and their wrap-around
-- is written out. The loops of the hash table, the buffers and the parser recur on what is left of
-- their arrays. The loop of the descriptor limit has 836 rounds of fuel, as many as there are limits
-- from 10024 down in steps of 12. The list's sort and release have fuel, and nothing for a result when
-- it runs out; the inner loops of the pattern search have as much as the index they start
-- from, and the MIME decoder as much as the block is long, and they fault when it runs out.
--
-- Not modelled: listPrint; the process of the server (serverDaemonise); the calls of libcurl, libxml2
-- and SQLite in http.c, htmlgrep.c and dbclient.c; sortstring of htmlgrep.c, which compares addresses;
-- and panic.c, which prints.
pub mod AoStr
pub mod Base
pub mod Client
pub mod Database
pub mod Eloop
pub mod Hmap
pub mod HtmlGrep
pub mod Http
pub mod Inet
pub mod LinkedList
pub mod Server
