-- ===== src/Lib.antt =====
-- The services daemon of EFNet: chanfixdb, the database of channel operators, admindb, the
-- database of administrators, the votes on jupes, and the servers, clients and channels, byte
-- queues, arguments and timed callbacks of the daemon.
--
-- modules/chanfixdb keeps channels, the users that were seen as operators in them and their
-- scores of 14 days in a mapped file. chanfixdb.c takes space for records from a free list or
-- from the end of the file, finds channels and users in chains of hash tables, keeps the users
-- of a channel in a list in order of their scores, and rolls the scores of all channels when
-- modules/chanfix asks for it. modules/admindb has a file of the same kind with the accounts of
-- administrators and the masks of the users that may log in to each. modules/chanfix counts the
-- operators of channels at each check and makes the best of them operators again when a channel
-- has none. daemon/hash.c keeps the servers, clients and channels of the network.
-- modules/jupes lets operators vote on servers that are to be kept off the network.
-- daemon/queue.c holds what a connection still has to send, daemon/misc.c cuts the lines that it
-- received into arguments, and daemon/timedcbs.c calls back at set times. include/services.h has
-- the list macros of the whole daemon.
--
-- The files, and the code they model:
--   Common: numbers, Boolean tests and lists that the other files share.
--   Links: si_ll_add_to_list and si_ll_del_from_list of include/services.h, and the same writes
--     where modules/chanfixdb/chanfixdb.c has them by hand. Segment, Insert and Scan are about
--     lists that are well linked, Family about many lists of one kind of record, Reaches about
--     the records that a head reaches.
--   Run: what a function of the two databases returns, and u_int.
--   Table: the links of a hash table whose records are also on a list of all, as
--     modules/chanfixdb/chanfixdb.c and modules/admindb/admindb.c have them. Index, Remove and
--     Find are about the lists.
--   Region: the space of a file: _chanfixdb_check, _chanfixdb_del_space and
--     _chanfixdb_get_space, which modules/admindb/admindb.c has again under other names. Blocks,
--     Safety, Use and Alloc are about the free blocks, the bytes in use and what is left alone.
--   ChanfixDb.Store: the structs of modules/chanfixdb/chanfixdb.h and _chanfixdb_check.
--   ChanfixDb.Hash: sihash_init, sihash_compute_client and sihash_compute_channel. Case is about
--     upper and lower case.
--   ChanfixDb.Space: _chanfixdb_del_space and _chanfixdb_get_space on the database.
--   ChanfixDb.Channel: chanfixdb_channel_find, _create, _remove and _cleanup. Index, Named,
--     Create, Find and Whole are about the list of all channels, the chains of the hash table and
--     the names.
--   ChanfixDb.Sorted: the list of users by score in chanfixdb_chanuser_sort. Place, Order and
--     Sort are about its links and its order.
--   ChanfixDb.User: chanfixdb_chanuser_find, _create, _remove, _sort and _roll, and
--     chanfixdb_roll. Scores and Sort are about the roll.
--   AdminDb.Store: the structs of modules/admindb/admindb.h, _siadmindb_check,
--     _siadmindb_del_space and _siadmindb_get_space on the database.
--   AdminDb.Account: siadmindb_account_find and _create, and _siadmindb_account_remove. Index
--     and Find are about the list of all accounts and the chains of the hash table.
--   AdminDb.UserHost: siadmindb_userhost_find, _create and _remove, and
--     siadmindb_account_remove. Create and Remove are about the list of the masks of an account.
--   Jupes: the structs of modules/jupes/mod_jupes.c. Jupes.Prune: _jupe_check_expired,
--     _jupe_free and _jupe_find. Jupes.Votes: _jupe_find_svote, _jupe_find_uvote and the end of
--     _do_jupe. Jupes.Commands: _do_jupe, _do_unjupe and _do_jupes. Pruned, Sound, Formed,
--     Voted, Keeps, Whole and Unjupe are about the list of jupes and the votes.
--   Chanfix.Scores: _chanfix_ignore, _chanfix_valid_userhost and _chanfix_get_scores of
--     modules/chanfix/mod_chanfix.c. Chanfix.Needed: the part of _chanfix_channel_reop that
--     finds the score of a pass. Chanfix.Modes and Chanfix.Check: what _chanfix_check counts for
--     the modes and the operators of a channel. Top is about the best scores, Rank about the
--     walk along the sorted list, Counted and Seen about a check.
--   Network: the structs of include/hash.h and the functions of daemon/hash.c on channels.
--     Network.Users: the lists of the users of a channel and of the channels of a client, and
--     siclient_find_channel. Network.BanList: sichannel_add_ban and sichannel_del_ban.
--     Network.Channels: sihash_compute_channel, sichannel_find, _add, _del, _add_user and
--     _del_user, and siclient_del_channels. Network.Steps: a call as a step from one network to
--     the next. Joined, Join and Part are about the lists of clients and channels, Banned and
--     Unban about the bans, Whole, Delete, Leave, LeaveAll and Find about the whole network,
--     Starts and Reached about the networks that the calls lead to.
--   Clients: SI_CLIENT of include/hash.h, and the functions of daemon/hash.c on servers and
--     clients. Clients.Lists: _siclient_hash_add and _siclient_hash_del, siclient_add,
--     siclient_add_oper, siclient_del_oper and siclient_send_jupe. Clients.Free: siclient_free.
--     Clients.Start: sihash_init. Clients.Search: siclient_find, siclient_find_incl_hm,
--     siclient_find_match_server, siclient_get_uplink, siclient_is_me and siclient_change_nick.
--     Formed is about the lists, Add and Typed about a new record, Forget, Unlink, Freed,
--     Children, Below and Split about a record that goes with those below it, Named about the
--     search for a name, Rename about a new name.
--   Queue: siqueue_add, siqueue_del, siqueue_get and siqueue_free of daemon/queue.c. Bytes,
--     Fill, Add and Remove are about the bytes of a queue.
--   Args: si_nextarg, si_next_subarg_space, si_next_subarg_comma and si_strncpy of
--     daemon/misc.c. Words and Message are about loops that ask for all arguments, Copy about
--     the buffer of si_strncpy.
--   Timers: sitimedcb_add and sitimedcb_del of daemon/timedcbs.c. Timers.Walk: sitimedcbs_check,
--     where a callback may add a timer to the list that the loop is in, as _chanfix_check of
--     modules/chanfix/mod_chanfix.c does; the fuel is twice the number of timers, since each
--     adds one at most, which is not due in the check. Order, Place, Kept and Check are about the
--     order of the timers, about where a callback's timer goes and about what a check calls.
--   Tests: concrete inputs of the theorems.
--
-- A position in the file is a number, a record type a function from positions to records, and
-- the `_prev` and `_next` fields of a list a pair of functions. A u_int is a native number that
-- wraps at 2 ^ 32. A function of chanfixdb or admindb takes the database to a result and a
-- database. The record Platform has what is not in the repository: tolower, strcasecmp,
-- ircd_strcmp, ircd_match, ftruncate and mmap, the sizes of the structs.
--
-- Loops along a list take fuel: one more than the number of records that the list can have,
-- which is the count the file keeps (`cfi_num_channels`, `cfc_users_num`, `ai_num_accounts`,
-- `aa_userhosts_num`), or for the free list one more than `cfi_freelist_size` or
-- `ai_freelist_size`. The theorems that need it show that this is enough for a well-formed file.
-- Where fuel runs out, the model returns a code `stuck` that the source does not have. The code
-- does not count its jupes: the commands on them take the fuel as an argument, and the theorems
-- ask for one more than there are jupes. The loops that ask for arguments are bounded by the
-- length of the line or the number of its arguments. In Network the fuel is one more than
-- `c_numchannels`, `ch_numbans` or st_numchannels, and a function returns none where it runs out
-- or an assertion fails. In Clients the fuel of a loop is one more than the number of clients,
-- of servers or of both, and the recursion of siclient_free takes the fuel as an argument: the
-- theorem asks for more than the height of the tree.
--
-- Not modelled: that records of two types share the bytes of the file; calls with NULL pointers;
-- the messages, the log, the configuration and the data file of modules/jupes; the creation,
-- opening and closing of files, dump, import and repair; the locks; the rest of modules/chanfix;
-- the functions of daemon/hash.c that only send, the text that it sends, and what the hooks of
-- the modules do; the other files of daemon and modules.
pub mod Common
pub mod Links
pub mod Run
pub mod Table
pub mod Region
pub mod ChanfixDb
pub mod AdminDb
pub mod Jupes
pub mod Chanfix
pub mod Network
pub mod Clients
pub mod Queue
pub mod Args
pub mod Timers
pub mod Tests
