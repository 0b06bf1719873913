-- ===== src/Lib.antt =====
-- The verification library of longterm, an SSH and mosh terminal. It models the client side of the
-- mosh protocol, src/moshclient.h and src/moshclient.cpp, the agent that answers forwarded ssh-agent
-- requests, src/sshagent.h and src/sshagent.cpp, the store of saved hosts, src/hoststore.h and
-- src/hoststore.cpp, the list that shows them, src/hostlist.cpp, and the session that connects to one,
-- src/sshsession.h and src/sshsession.cpp.
--
-- The program's parts and how they interact. The application writes keys and sizes into a queue of
-- events (`write`, `resize`). `tick` runs when a timer is due: it works out when to send, and sends
-- either the difference to a state that the server has (`sendToReceiver`) or an empty
-- acknowledgment. An instruction is written in protocol buffers, compressed, cut into fragments,
-- encrypted and sent as datagrams. What arrives goes the other way: fragments are put together, the
-- instruction is read, its acknowledgment taken in and its changes applied. A journal on disk lets a
-- session go on after the app was closed: `resume` reads it. The hosts that a session connects to
-- come from the store, which keeps them in a settings file and their passwords in a vault. A session
-- asks the vault for its secrets, runs a worker thread for the connection and, under mosh, a second one
-- for files and forwards, and follows what their signals tell; its options are those of the host.
--
-- Files, and what of the source they model:
--   Base: numbers, Boolean tests, lists, big-endian words, maps as association lists.
--   Mosh/Proto: `putVarint`, `putUint`, `putBytes` and the class `ProtoReader`. A reader is what is
--     left of its data and its flag. Proto/Varint, Proto/Field and Proto/Loop hold the lemmas.
--   Mosh/Instruction: what `sendInstruction` writes and the loop of `receiveInstruction`.
--   Mosh/Fragment: the cutting of `sendInstruction` and the whole of `receiveFragment`.
--   Mosh/Client: the members of `MoshClient`, grouped as `Link`, `Sender`, `Receiver`, `Journal`.
--   Mosh/Journal: `journal`, `rewriteJournal`, `setJournalNote`, `journalEvent`. A journal is the
--     list of its records since the file was last truncated.
--   Mosh/Link: `newSocket`, `roam`, `timestamp16`, `sendPacket`.
--   Mosh/Sender: `write`, `resize`, `userDiff`, `updateAssumedReceiverState`, and the part of
--     `calculateTimers` that forgets events. Sender/Typed is about what is typed, Sender/UserMessage
--     and Sender/Diff read a diff as a server does, Sender/History is about what is forgotten.
--   Mosh/Send: `calculateTimers`, `waitTime`, `addSentState`, `sendInstruction`, `sendEmptyAck`,
--     `sendToReceiver`.
--   Mosh/Ack: `processAcknowledgment` and `echoedBytes`.
--   Mosh/Tick: `tick` and `shutdown`.
--   Mosh/HostMessage: the three nested loops of `applyDiff` that read what the server changed.
--   Mosh/Receiver: `receiveInstruction`, `applyDiff`, `stepsTo`, `throwAwayUntil`, `takeOutput`,
--     `resetMirror`, `writeMirror`. Receiver/Steps, Receiver/Insert, Receiver/Screen,
--     Receiver/ThrowAway and Receiver/Received hold the lemmas on the states received and the mirror.
--   Agent: `SshAgent::process`, `reply`, `sign` and the readers and writers of the protocol.
--     Agent/Framing and Agent/Signing hold the lemmas.
--   Mosh/Restart: the bytes of the journal (Write), `readJournal` (Read), `start`, `setJournal` and
--     `resume` (Resume). Entries, Reading and Cut hold the lemmas on single records and on whole
--     files, with a last record cut short; Snapshot and Restored those on a journal written anew;
--     Nonces those on a restart.
--   Hosts/Host: `Host`, what `saveHost` makes of a form, and its helpers `singleLine`, `seconds`.
--   Hosts/Store: the hosts with their file, the vault's requests, and every operation on them.
--     Store/Lookup is about what an id finds, Invariant, Keeps and Changes about what stays true,
--     Store/Reach has the steps of a store, Store/Refine, Store/Saved and Store/Removed the
--     store as a map from ids to hosts.
--   Hosts/Config: `configArguments` (Arguments), the two halves of `importConfig` (Fields, Parse and
--     Import), `exportConfig` and `shellQuote` (Export). Quoting, Shell and Imported hold the lemmas.
--   Hosts/Settings: `load` and `save`. Hosts/Copy: `duplicateHost`, `exportHosts`, `restoreHost`.
--   Session: the members that the connection of `SshSession` depends on. Session/Worker has
--     `startConnection`, `fetchCredentials` and `startWorker` with the lambdas they pass on,
--     Session/Event the calls and slots, Session/KnownHosts `trustNewHostKey`, Session/Run the steps:
--     any order of calls, answers of the vault and signals of a worker that is there. Consistent and
--     Handled, Ended, and Awaited, Progress and Settles are about runs; Trusted about known_hosts.
--   Session/Options: the environment, SOCKS ports and forwards of `startWorker`. Session/Forwards ties
--     them to the forwards that Hosts/Config imports.
--   Session/Predict: `predict`, `onMoshEcho`, `showPredictions`. Session/Typing: `trackTyping`.
--   Session/Socks: `readSocks`. Chunks and Pieces are about input in pieces, Request about a client.
--   HostList: `rebuild`, `section` and the starts of sections. Order is about the order of the hosts,
--     Sorted and Listed about the rows.
--   Tests: a client and packets at concrete values.
--
-- Conventions. A function that changes members takes the client last and gives the new one. Unsigned
-- 64-bit arithmetic keeps its wrap-around (`add64`, `sub64`); the event counters, which are signed
-- in the source and count what a user typed, are natural numbers. `m_sent.last()` of an empty list,
-- which the source never asks for, is a state of zeros.
--
-- Bounds and fuel. A loop over `ProtoReader::next` runs on as much fuel as there are bytes left and
-- one round more; each round takes a byte, so it ends by its own test. The loop that cuts fragments
-- gets 0x7fff rounds, as the source does. `stepsTo` has the source's own bound, one step more than
-- there are states, and the walk of `throwAwayUntil` the same. `SshAgent::process` has a round for
-- each byte of the input and one more, and takes four bytes at least in each. `readJournal` has a
-- round for each byte and takes five at least. The search of `duplicateHost` for a name has a round
-- for each host. `putVarint` recurses
-- on the order of the numbers.
--
-- Outside, as parameters (`Outside` and `Env` in Mosh/Link, functions of the record `Agent`): zlib,
-- AES-OCB and the signatures of OpenSSL, libvterm, the clock, the random chaff and what `socket`
-- answers. The clock is read once a call, and the two timeouts that the source takes from
-- floating-point round-trip times enter as numbers. A datagram handed to `sendto` is kept in an
-- outbox with its nonce. The counts of lines that scrolled off, signed in the source and never below
-- 0, are natural numbers.
--
-- Of the host store, the ids of `QUuid`, the translated name of a copy, the time, the values that
-- `QSettings` gives, the numbers, lower case and expression for tmux of Qt (the record `Qt`) and the
-- answers of the vault are arguments; the requests to the vault are kept in
-- a list. The file of a journal is an argument, as are the outcomes of opening it and of setting the
-- key. The event counters of a journal, signed 64-bit in the source, are natural numbers also where a
-- damaged file says otherwise.
--
-- Of the session, the worker threads with libssh, the vault and Qt's functions are outside: events
-- of the step relation, the records `Screen`, `Peers` and `Qt`, and `Locale` of the host list. An event
-- for the worker comes only while there is one; whether a fetch is still wanted is left to the code, so
-- answers to old fetches come as well. A text and its UTF-8 are one, the translated text around an
-- error is left out, and QFile::remove is taken to remove the journal.
--
-- Not modelled: `readable` with its floating-point estimate of the round-trip time, the Qt and
-- system calls around the client, the signals and roles of the host store's list model, and the
-- session's logs, notices, startup script and detection of the system, and the other parts of the
-- program (the list of sessions, SFTP, the stores of keys and colour schemes, the terminal and its
-- view).
pub mod Base
pub mod Mosh
pub mod Agent
pub mod Hosts
pub mod Session
pub mod HostList
pub mod Tests
