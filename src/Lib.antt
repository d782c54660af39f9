-- ===== src/Lib.antt =====
-- A verification library for mx3bot, an IRC bot in C.
--
-- The bot keeps, for the servers that it is on, the channels it is in (src/channel.c) and the users
-- it has seen there (src/user.c). The IRC client library under src/irc sends what the bot says
-- through a queue that holds back a flood (src/irc/irc_queue.c), and joins the channels of its own
-- list again when it has to (src/irc/irc_channel.c). Masks (src/misc.c) say which users a record
-- of the user database or a ban is about. The databases of users, bans, modes, notes and variables
-- (src/db/text) are text files of sections and rows, which src/config.c reads and writes.
--
-- The files:
-- - Irc/Queue.antt: src/irc/irc_queue.c. The file's static variables are the record Queue, with an
--   array of items whose entry 0 is not used; enqueue(), dequeue() and the four functions that
--   irc_queue.h offers keep their names, less the prefix _irc. An access outside the array is
--   `none`, so a proved result also says that there is none. Below it, Order, Up and Down have the
--   order of the heap and the two loops, Live the counter, Place and Take the two operations,
--   Spec the messages in waiting as a list, Refines when a queue is ready and which messages are
--   waiting in it, Laws what enqueue() and dequeue() do to them, Calls what the functions of the
--   header do, Flood runs of _irc_queue_update(), and Faults what follows a failed realloc().
-- - Irc/Channel.antt: src/irc/irc_channel.c, a table of 256 slots, with Laws for adding and
--   deleting, Marks for the status and Join for what is asked for when.
-- - Irc/Parse.antt: src/irc/irc_parse.c. A result of `none` is a line at which the source reads
--   through a null pointer or past an array. Parse/Lines has the lines that clients send, and
--   Strtok.antt strtok() and strrchr().
-- - Irc/Network.antt: sending and reading a line in src/irc/irc_network.c, with what recv() does as a
--   list. Network/Laws is about a line that arrives at once, and one that arrives in two parts.
-- - Irc/Client.antt and Irc/Loop.antt: src/irc/irc_client.c, whose functions act on a record of all
--   the variables of the client and of its queue and channel list, with the lines sent so far.
--   The main loop reads a list of events; Loop/Pass has one pass of it, and Loop/Idle is about a
--   silent server.
-- - Irc/Handler.antt: src/irc/irc_handler.c. Irc/Events.antt has the numbers of src/irc.h.
-- - Channel.antt: src/channel.c.
-- - Misc/Mask.antt: mask_match() of src/misc.c. Its pointers are the texts left to read. Glob says
--   what a mask means. Misc/Create.antt: mask_create() and ischan() of the same file;
--   Misc/Text.antt the other functions on texts.
-- - User.antt: src/user.c. lookup_user() and user_auth() call the user database, of which there are
--   two in the source; here it is the record UserDb. User/Session.antt has the functions on the id of
--   a user. User/Keys.antt and User/Add.antt have the table of users by server and nick,
--   User/Ids.antt who they are in the database, and User/Leave.antt leaving a channel and changes
--   of nick.
-- - Config.antt, Config/Rows.antt and Config/Write.antt: src/config.c, on the bytes of a file.
--   config_get_str() goes through the lines that fgets() returns; the calls of config_get_row() are
--   a list of the rows with their lines; config_set_str() reads the whole file, finds a range in it
--   and writes the file again. Config/Lines.antt says what such a file is as a list of lines,
--   Config/Read, Config/Write/Put, Laws and Delete have what the loops do on it, Config/Rows/Delete
--   where a row stands, and Config/RoundTrip reading what was written.
-- - Db/Text.antt: what the files of src/db/text share, with Ban, Mode, Note, Users (userdb.c, with
--   Password) and Var below it, each a database in one file; its functions keep their names, less
--   the prefix text_. A result of `none` is a read through a null pointer, or too little fuel for a
--   loop that deletes rows. Delete and Endless are about those loops, Note/Laws and Users/Laws
--   about the databases, and Auth fills the record UserDb of User.antt with the one of users.
-- - Log.antt: src/log.c, with the lines that were written to each file. Log/Laws is about a log that
--   is opened, and one that is opened again.
-- - Connection.antt: src/connection.c, the table of child processes. One process, the parent, holds
--   the users, the logs and the scripts; each connection is a child that runs the IRC client. The
--   child tells the parent of an event by a line `<number> <WORD> <parts>` in a fifo, and then obeys
--   the lines in its own fifo until one is OK or FAIL. Connection/Queue has the messages that wait
--   for a child and the handlers of HELLO, UPDATE and SEND, with Queue/Laws on a child that does not
--   read; Connection/Count the number of connections; Connection/Line and Words how a line is taken
--   apart; Connection/Fifo read_input(); Connection/Signals the signals.
--   Connection/Child has a child, with Events and Replies the functions it registers with the IRC
--   client, and Commands what it obeys. Connection/Parent has the state of the parent, that is the
--   connections, the users and the logs, with Messages, Presence and Notes the functions that answer
--   a child, and Dispatch the choice among them. What is passed to write() is a list.
--   Connection/Wire follows an event from the IRC client to the tables of the parent, Wire/Chain from
--   the socket on, with Parent/Messages/Commands about the scripts that a message runs and
--   Parent/Presence/Gone and User/Gone about who is no longer in sight.
-- - Script.antt: src/script.c, with the Tcl interpreter as a record of operations on a state of its
--   own. Script/Runs has script_exec() on the state of the parent, where that of the interpreter is
--   the list of what it has been told; Script/Laws is about the files that are run, and
--   Script/Keeps about what a script leaves as it was.
-- - Table.antt: searches in arrays and the tables of the program, whose slots are free when their
--   name is empty.
-- - CString.antt: texts as lists of bytes, with strcasecmp() and strncpy(). A field of n bytes that
--   strncpy() has filled is the text before its first zero; the source reads past a field that has
--   no zero, and theorems about names ask for names that fit.
-- - Base.antt: numbers, lists and options.
-- Each component's Tests.antt runs the definitions on concrete values.
--
-- Loops over an array are recursion on a list. The loops of the heap take the number of items
-- as fuel, which is enough since the position is at least doubled or halved at each pass.
-- The loop of mask_match() takes the length of the mask and one more, since each pass but the last
-- moves on in the mask. user_add() calls itself once at most, after the table has grown.
-- A loop that deletes rows by their lines takes one unit of fuel for each row and one more, so one
-- more than the lines of the file is enough; the loops that call config_set_str() with NULL have
-- no bound.
-- The wait of a child takes one unit of fuel for each byte in its fifo and one more, which is enough
-- since each line takes one byte at least; where the fifo is used up the child waits for ever.
-- The counter of the queue has 29 bits, and its arithmetic is modulo 2 ^ 32.
--
-- malloc() and realloc(), the clock, crypt(), rand(), the regular expressions, fopen(), the socket
-- library, the Tcl interpreter and the functions that the program registers for events are
-- parameters; in src/config.c malloc() and fwrite() do not fail, in src/connection.c read() and the
-- write() of a child do not, and atoi() is modelled where its result fits. The parent's debug
-- messages and warnings are left out, and a JOIN or a message without a nick is taken to end the
-- parent even where malloc() fails first. Not modelled: how a connection is opened, the options and
-- the order of the calls in src/main.c and src/irc/irc_main.c, the databases in SQL and the choice
-- between the two kinds, and the questions that set up the bot. The Tcl commands are glue, and
-- getopt is a copy of the GNU library.
pub mod Base
pub mod CString
pub mod Strtok
pub mod Table
pub mod Config
pub mod Channel
pub mod Irc
pub mod Log
pub mod Misc
pub mod User
pub mod Db
pub mod Connection
pub mod Script
