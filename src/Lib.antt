-- ===== src/Lib.antt =====
-- A verification library for Completed-Projects: the chat service of Unix_Chat_Service, the HTTP
-- server of C_Server and the shell of Unix_Command_Line_Shell, three C programs that share nothing
-- but the helpers of Common.
--
-- Chat models Unix_Chat_Service. Blather holds the structures of blather.h; Os the operating system
-- under the server, as a function from the calls made so far to the next answer, and the monad in
-- which the server runs (`exits` is the `exit(1)` of util.c's `check_fail`); Server the operations
-- of server.c and one round of the main loop of bl-server.c, with the names of the C functions,
-- below it Received what arrives at one client, Delivered, Told and RoundOrder how that of two
-- clients compares, Slots two servers that differ behind their clients, and Lifetime `main` and the
-- signal handler; Room a chat room without slots or descriptors, which the rounds of the server
-- implement; Simpio the line editor of simpio.c, with the mode of the terminal in Simpio/Mode.
-- Client holds the two threads of bl-client.c, each by itself, and below it Threads the two
-- interleaved over the terminal that they share, as a step relation with the requests to cancel,
-- Request and Joining `main` up to the threads, Process the whole of it, and Notices what is shown.
-- Delivery puts the server and the client together. Demo holds the two workers and `main` of
-- simpio-demo.c.
--
-- Strings are lists of bytes in arrays of their C sizes, read up to the first NUL; in the line
-- editor a write outside the buffer leaves the empty one. Descriptors and return codes are
-- integers, flags are Booleans. The array of clients has its 256 slots, and the populated part is
-- its first `n_clients`. A structure that is written or read is one unit; a read that returns
-- nothing leaves the zeros of `memset`. What the array of `iprintf` holds before it is written is a
-- function `Stack` of the text so far.
--
-- Loops whose bounds move (`remove_each`, `handle_clients`, `user_to_server`) take fuel; one round
-- more than there are clients, and two more than there are lines, is enough.
--
-- Http models C_Server. Data holds the limits and structures of C_Server/src/server.h; Request the
-- parsing of a request, the kind of the file and the query string, and Handler the handling of one
-- client, the configuration file and the accepting loop, and Setup `main` as the trace of its calls
-- of the system, of C_Server/src/server.c; Response the responses of C_Server/src/httpResponses.c,
-- with the arrays of the header lines in Response/Headers. A response is the list of the writes to
-- the socket. The date, the files and what the stack holds come from a record `World`; arrays that
-- the code does not clear are arguments. `none` is an access outside an array, where C promises
-- nothing. A file that cannot be read is taken to have no positive size either. A number of the
-- configuration is taken to fit an `int`. The fuel of `send_chunks`, one more than the file has
-- bytes, is enough, and for `serve` one more than the connections that are admitted.
--
-- Shell models Unix_Command_Line_Shell. Tokens is util.c's `parse_into_tokens`, Cmd the jobs of
-- cmd.c, Commando the table of cmdctl.c and one round of the main loop of commando.c, as the new
-- table and what is printed, Session `main` on its whole input, with one more round of fuel than
-- there are bytes, and Memory the blocks that all of it allocates and frees. What `fork` and
-- `waitpid` answer, what a pipe holds once the job has exited, if it can be read at all, and what
-- new memory holds are arguments; `waitpid` may answer otherwise when it blocks than when it does
-- not. `none` is an access outside an array, as behind a first `read` that fails, or of an entry
-- that was never written. Sizes of output are taken to fit an `int`, numbers that are typed too.
-- The fuel of `read_more`, one more than there are bytes, is enough.
--
-- Not modelled: debug output, a signal that interrupts the server anywhere but between two rounds,
-- the threads of the HTTP server against each other, the descriptors of the pipes between the shell
-- and its jobs, the Java banking application, shell scripts and test programs.
pub mod Common
pub mod Chat
pub mod Http
pub mod Shell
