-- ===== src/Lib.antt =====
-- Network programs in C and C++, which share no code: a file transfer server and its client
-- (FTP/server.c, FTP/client.c), the server and the client of a chat room (Socket (Multi Threaded)/server.c
-- and client.c), the broker, the publisher and the subscriber of a system of publishers and subscribers
-- (publisher and subscriber architecture/broker.cpp, publisher.cpp and subscriber.cpp), and a program that
-- sends words and prints them at the other end (Socket (Single Threaded)/echoer.c).
--
-- The parts, and the files that model them:
--
-- - Clib: the functions of the C library that the programs call, by their standard: `strcmp`, `tolower`,
--   `strtok` (Clib/Strtok), `atoi` and `%d` (Clib/Decimal); and buffers with NUL bytes (Clib/Buffers). A
--   text is the bytes of a string before its NUL. An `int` is a number below 2 ^ 32, its bit pattern;
--   sums and products wrap.
-- - Ftp/Protocol: what server.c and client.c both declare: `enum Command`, `struct Message`, `interpret`
--   and `toLowercase`.
-- - Ftp/Server/State: the globals of server.c as a record, what a call of `execute` can end in, the file
--   system as a parameter (`Files`), and `pthread_cond_signal`.
-- - Ftp/Server/Directory: `validDirectoryEntry`, `changeWorkingDirectory`, `getDirectoryEntries`,
--   `getStreamFromFile`.
-- - Ftp/Server/Execute: `execute`, with a handler for each case of its `switch`.
-- - Ftp/Server/System: `main` and `dataThreadRoutine`. The main thread waits in `accept`, in `recv` or in
--   `pthread_join`; a data thread stands before its `bind`, in `pthread_cond_wait`, behind it, or at its
--   end. A step is what one thread does up to the next call at which another may run, and an event says
--   which thread runs and what the operating system answers it. `run` takes a list of events.
-- - Ftp/Client: client.c: the prompt, `callback`, `extractClass`, `toVerbal`, and the two ends of its
--   `dataThreadRoutine`: the decoding of the port and what is done with the data.
-- - Ftp/Client/System: `main` and `dataThreadRoutine` of client.c as threads that take turns, in the way
--   of the server's. The main thread waits in `recv`, in `pthread_join`, in the `recv` behind that, or in
--   `scanf`.
-- - Ftp/Network: the two systems connected: a step is one of either side, and what a side sends is on its
--   way until the other receives it. Ftp/Network/Lockstep is about their turns on the control connection;
--   Ftp/Network/Listing and Download follow two commands of the user to the screen and to the disk.
-- - Ftp/Exchange: the server and the client together: the data ports that both take from an answer, what
--   goes over the data connection, whole transfers of a listing and of a file, and the requests.
-- - Chat/Queue: the message queue of the chat server: `isFull`, `isEmpty`, `enqueue`, `dequeue`, and the
--   critical sections of the last two on their own.
--   Chat/Queue/Backlog holds a plain list as its specification.
-- - Chat/Room: `main`, `senderWorkload` and `receiverWorkload` as threads that take turns.
-- - Chat/Client: the chat client: `main` and `workload`.
-- - Broker: broker.cpp: `register_message` and `distribute_message`, and the threads of
--   `handle_publisher`, `handle_subscriber`, `handle_receiver` and `handle_sender`, which take turns.
--   Broker/Subscriptions is a subscriber's `map<string, pair<bool, int>>`, in the order in which
--   `handle_sender` goes through it.
-- - Broker/Process: the process of broker.cpp from `main` on: the set-up of each thread's sockets, and the
--   argument that it reads. It implements Broker, in which each subscriber has its own sender thread.
-- - Publisher: publisher.cpp: the loop of `main` over the words of its user, `isValidFileName` and
--   `readFromFile`. What it posts the broker publishes. Publisher/Process is the same program with `post`,
--   the failures of its calls, and the number of descriptors that are open, of which the limit is a
--   parameter.
-- - Subscriber: subscriber.cpp: `main`, `main_thread_as_topic_sender` and `receiver_routine`, and what the
--   screen shows of what the broker sends.
-- - Echoer: echoer.c: `main` on both sides, and `handler`.
--
-- The laws of a part are in the modules under it, and its theorems on concrete inputs in Tests.
--
-- What is taken for granted:
--
-- - A `recv` gives a whole message, as both sides send it, or an error, or the end of the stream; the
--   bodies of messages hold a NUL.
-- - `responseMessage` of server.c's `main`, which is not initialised, points to a buffer of
--   MAX_BUFFER_SIZE bytes. A text that does not fit its buffer is undefined behaviour, and ends the run.
-- - `pthread_join` writes a pointer into an `int`; only its lower half is read, and that is not 0 for the
--   text "Success".
-- - `pthread_cond_signal` wakes the thread that an event names, if that waits, or else the first that
--   waits; that the wait is entered without the mutex has no other effect than wake-ups with no signal,
--   which are events.
-- - A variable of a loop's body keeps its place in memory, so that the pointers to `userId` which the
--   chat server gives to its threads are all to one variable. Calls of `enqueue` are split at the lock.
-- - A `send` on a connection that is gone raises SIGPIPE: it ends the chat server and the chat client by their
--   handler, and the broker and the publisher by default; server.c of FTP ignores it.
-- - The threads of the broker touch `topics` and `user_informations` one at a time, as if all held one
--   lock. In Broker each serves the subscriber that it was made for; in Broker/Process it serves the one
--   that it finds in its argument.
-- - The publisher's file is the same at both of its `fopen`s; `fopen` and `socket` fail where the limit of
--   open descriptors is reached.
-- - The connections between the FTP server and its client lose nothing, keep the order, and do not break, so
--   that the client's `send` raises no SIGPIPE.
--
-- Recursion is on lists, but for `strtok`'s loop, which is given as many rounds as the text has bytes and
-- takes at least one in each, and the digits of n, which are fewer than n + 1.
--
-- Not modelled: output on the terminal, but for what a client prints of what it received; the set-up of
-- sockets before the loops of the FTP programs, the chat server and the echoer. A failed
-- `setsockopt`, `bind` or `connect` there ends the program before it does anything.
pub mod Common
pub mod Clib
pub mod Ftp
pub mod Chat
pub mod Broker
pub mod Publisher
pub mod Subscriber
pub mod Echoer
