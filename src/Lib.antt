-- ===== src/Lib.antt =====
-- nettool: the library libnettool, which asks the Linux kernel for network settings over netlink,
-- the command nettool on top of it, and the programs of test_cpp that try out parts of both.
--
-- Base holds the shared names: Boolean tests, signed integers (ℤ, C's int) and lists. Bits holds the
-- lemmas on binary digits and masks.
--
-- Listq models libnettool/src/listq.c and listq_local.h, a list on the TAILQ macros of
-- <sys/queue.h>, over an explicit memory (Listq.Heap). An operation `listq_addTail` is `add_tail`
-- in Listq.Ops, and so on. What `calloc` answers is an argument. The loops of listq_FindItem and
-- listq_clean run on fuel: length + 1 rounds are enough for listq_clean, and two rounds for a
-- search that ends. Listq.Session is a list from listq_create to listq_destroy, Listq.Client the
-- program test_cpp/src/queue.c.
--
-- Netlink is what the program takes from Linux. A message buffer gives a value to each member of
-- a structure at an offset (Netlink.Buffer); the macros NLMSG_OK, RTA_OK and their kin are written
-- out from netlink(7) and rtnetlink(7), with C's conversions of a negative length. The system calls
-- (Netlink.System) are a parameter, the record Kernel: an answer may depend on all that happened
-- before. A run adds what it does to a trace: calls, lines printed, the latest first.
-- Netlink.Requests reads a request back as a receiver does.
--
-- Library is libnettool/src. Library.Util is util.c, Library.Exchange and Library.Verdict what the
-- exchanges with the kernel share. Library.Address is ip_add.c, ip_del.c and ip_show.c,
-- Library.Route gateway_add.c, gateway_del.c and gateway_show.c, Library.Link ip_link.c. Each has
-- the requests (a function `f_request` is `f` up to its `sendmsg`), the sessions with the names of
-- the source, and what a run of them does (Outcome). The receiving loops of nettool_ip_show,
-- gateway_show and link_info_receive run on fuel, one round for each message received, since they
-- end by what is received; the loops over one message or one reply have one round more than there
-- are bytes, which is enough.
--
-- Library.Network is what a caller of the library may rely on: the network that a kernel keeps (the
-- flag IFF_UP and the addresses of devices, without the other flags and without routes), as the
-- requests that it accepts make it; and a kernel that answers each request as it decided (IsHonest)
-- and a dump with the devices of the network, in a bounded number of replies (IsShowing). The
-- functions of the library are then shown to tell of what became of the network.
--
-- Nettool is nettool/src: the tables of names and read_event of main_nettool.c (Tables, Names,
-- Links, Addresses, Events), and main with ip_link.c (Main). The static variable vIfi_flags is
-- passed from message to message. The loop of read_event has the fuel of its caller; one round
-- more than the bytes received is enough when lengths are multiples of four. LoopEvent has one
-- round for each call of `select`. Series is any number of runs of its commands `lu` and `ld`, one
-- behind the other, on the network of Library.Network, and Shown is `li` behind them.
--
-- Trials is test_cpp/src, small programs of their own. Trials.Time is ts_util.c. Trials.Calls has
-- the calls that the programs on threads make; Trials.Condition (Test_condition_variable.c),
-- Trials.Signals (Test_waitSignal.c) and Trials.Sleep give the calls of each thread in order, from
-- what the clock and the system answer in each round of a loop. Trials.Timer is Timer.c: the steps
-- of main_Timer, of its thread and of the timer, in any order. Trials.Fields is getcolon of
-- Network.c and Trials.Pton its Net_inet_pton: a text is a list of bytes, a loop over an index a
-- function of what is left of the text, and an access outside the text or an array has no result.
-- Trials.Gpio is WaitGpio.c, over one file, and GpioSelect.c; Trials.ReadFile is CheckReadFile of
-- WaitGpio.c, whose walk has one round more than the bytes read, which is enough. Trials.NetLib is
-- NetLib.c, on the kernel and the buffers of Netlink; its loop over messages has one round for each
-- byte of its buffer and one more, which is enough.
--
-- Trials.Lines is Common.c, with the bytes of its buffers. Trials.States is CUtilNet_StateMachine of
-- test.h on the bit pattern of its int. Trials.Scan is StringSubstr and Sscanf of test.cpp. Floating
-- point is an interface (Trials.Double) on which ts_Float, Test_gettimeofday, Check_Modf,
-- Check_LongDouble and the class of CCountDown.cpp (Trials.Remaining) stand; that integers below
-- 2 ^ 53 are exact is its one law.
-- Trials.Fifo is WaitFifo.cpp, Trials.Counter CCounter.cpp, Trials.Menu main.cpp, and
-- Trials.Countdown test.cpp, whose loops stand on what their calls answer round by round. Trials.Units
-- is tu_UTIL_Timespec.cpp, over an interface for the class that it tests, whose source is elsewhere.
--
-- Library.Listing and Nettool.Unused are code that nothing calls: parse_ifa_msg, parse_rt_msg and
-- parse_nl_msg_gateway of the library (lengths are a size_t here, and the loop has one round more
-- than there are bytes), PrintMessageType, PrintIfinfomsg and set_link of the command.
-- Nettool.SetLink is the request of the command's own IpLink.
--
-- Integers of C have no width where the code only adds, subtracts and compares: seconds, counts
-- and lengths are taken to fit. Where a conversion between widths decides a test, it is written out.
--
-- Texts are whole in Library and Nettool: the bounds of the buffers that strcpy and strncpy write
-- are not modelled. Not modelled are errno.c (a copy of libnl's table of error texts) and, in
-- test_cpp/src, TestString and CalcMask of test.cpp (addresses are printed, and a search without a
-- use); ipcalc and ifacewatch.c are copies of other projects' files, and debug_src.c is a note that
-- is not compiled.
pub mod Base
pub mod Bits
pub mod Listq
pub mod Netlink
pub mod Library
pub mod Nettool
pub mod Trials
