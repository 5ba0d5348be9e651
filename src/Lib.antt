-- ===== src/Lib.antt =====
-- can-tracer reads CAN logs (.asc, .trc, .blf) and DBC databases, and shows the messages, their signals
-- and plots of the signals. This library models the parsers, the decoding of signals, the graphs and the
-- state behind the window.
--
-- The parts and how they interact. A parser of src/logparser.cpp or src/blfparser.cpp makes a list of log
-- entries (src/canmsg.h), src/dbcparser.cpp a database of messages with their signals. src/canmsg.cpp
-- decodes a signal from the payload of an entry, and makes the graph of a signal from all entries.
-- src/mainwindow.cpp keeps the log, the database and the plots, and changes them in its slots.
--
--   * Prelude, Qt: numbers, outcomes (a value, or the fault of the C++ expression), and the types of Qt.
--     `double` (Qt.Double), regular expressions and conversions of texts (Qt.Text), and QDataStream
--     (Qt.DataStream) are parameters of the definitions that use them.
--   * Can (src/canmsg.h): CanLogMsg, CanSignal, CanMessage and CanDb with their functions under the same
--     names, in snake case. A pointer that a search returns is the index of the element.
--   * Signal (src/canmsg.cpp, parseSignal): gather is the loop over the bits, raw_of the sum of the pieces,
--     with_sign the sign. The bound on the rounds of gather is the length of the signal. The start bit of a
--     big-endian signal is the lowest bit of a byte in Motorola, and the highest, as DBC files have it, in TopBit.
--   * Graph (src/canmsg.cpp, getSignalGraph, and the points that onAddSignal draws). What the code reads
--     behind the end of the log is the argument past_end.
--   * Dbc (src/dbcparser.cpp): read_line is one round of the loop of parseStream, on a record of its local
--     variables. The two states are those that the code assigns.
--   * Log (src/logparser.cpp): parse_text is the loop, parse_line the virtual call, with the counter of the
--     ASC driver as a state; get_extension and parse choose the parser.
--   * Blf (src/blfparser.cpp): parse_object, parse_container (the loop in getObject), get_object and parse.
--     The fuel of parse_container is one more than the bytes at hand, which is enough for fewer than 2^31
--     bytes; that of get_objects is an argument, for which more than the bytes of the file is enough.
--   * Chart (src/customqchartview.cpp): startSearchIndex, with a round for each point, and the events of the
--     mouse, which keep an index and a line, and tell a label.
--   * Window (src/mainwindow.cpp, src/signalplotlistmodel.cpp): a record of the state, a function for each
--     slot, and in Window.Step a step over all of them. A chart is what the code last gave it. Window.PlotList
--     has the texts of the list of plots. PlotStore is SignalPlotListModel with its pointers: the charts that are
--     alive, by their addresses, which the operations delete.
--   * Loading (src/mainwindow.cpp): the window with its two futures. open_file and open_dbc_file start them,
--     run_log and run_dbc are the functions that they run (Log.parse and Dbc.parse on a Disk, the files as
--     they are then), deliver_log and deliver_dbc are the signals finished(). Loading.Reach lets all of these
--     and the slots of the window take turns in any order. A future that is replaced while it runs is gone
--     with its result, whatever its function still does.
--   * Menus (src/mainwindow.cpp): the three context menus, with the slots behind their actions.
--   * Dialog (src/signalselectdialog.cpp) and ColorEditor (src/colorlisteditor.cpp, and ColorPickDelegate in
--     src/mainwindow.h): boxes over the interface Qt.ComboBox, whose laws are what the code relies on.
--   * Delegate (src/mainwindow.h, LogDelegate): the rectangles in which cells are painted.
--   * LogModel (src/canlogmodel.cpp): the rows, texts and colors of the table of log entries, with the two
--     hashes of highlights as functions. An index is an entry, or a signal below an entry.
--   * MsgModel (src/canmsgmodel.cpp) and SignalModel (src/cansignalmodel.cpp): the tables of the messages and of
--     the signals of one of them: cells in every role, headers, and the editing of colors.
--   * Filter (src/customproxymodel.cpp): the filters of its columns, and the header of the log, which shows them.
--   * Tests: the theorems on concrete inputs, and runs.
--
-- Not modelled: layout and painting of widgets, what models tell their views of a change, where the mouse
-- stands (an argument), and the start in src/main.cpp. Overflow of the ints that count pixels and ticks is not
-- modelled.
pub mod Prelude
pub mod Qt
pub mod Can
pub mod Signal
pub mod Dbc
pub mod Blf
pub mod Log
pub mod Graph
pub mod Chart
pub mod Window
pub mod Menus
pub mod ColorEditor
pub mod Delegate
pub mod PlotStore
pub mod Filter
pub mod Dialog
pub mod MsgModel
pub mod SignalModel
pub mod Loading
pub mod LogModel
pub mod Tests
