-- ===== src/Lib.antt =====
-- ScopeAnalyser: the core logic of a recorder and analyser of PLC signals.
--
-- The parts, and how they work together:
-- * core/ holds the signals. A tool's edits are kept in an undo history; the signal store names the
--   shared signals and announces its changes. Core/UndoStack.antt, Core/Signal.antt,
--   Core/SignalStore.antt and Core/Types.antt model UndoStack.h, Signal.cpp, SignalStore.cpp and
--   Types.h. A shared pointer is an index of the store's heap; a Qt signal is an entry of the list of
--   events; the callbacks of the history are parameters, and the one that restores may commit.
-- * recorder/ moves samples from an ADS client into signals and a file. Recorder/NotifyChannel.antt
--   models NotifyChannel.cpp: the client's callback (`on_ads_sample`) and the writer's drain
--   (`drain_to`) are steps that interleave freely (NotifyChannel/Activity.antt).
--   Recorder/RecordingSession.antt models RecordingSession.cpp: start, stop and the drain tick.
--   Recorder/Interfaces.antt states what they rely on of the lock-free queue, the ADS client and the
--   file: records of operations and of laws.
-- * ads/ lists the symbols of a PLC. Ads/TypeNames.antt models AdsTypeNames.cpp: the elementary types,
--   the array declarations and the expansion of an array symbol. Ads/TypeTable.antt models
--   AdsTypeTable.cpp: the parser of the PLC's raw type table (TypeTable/Parse.antt), the expansion of a
--   structured symbol through it (TypeTable/Expand.antt) and of a whole listing
--   (TypeTable/Aggregates.antt). Ads/MockAdsClient.antt models the synthetic client. Qt's text functions
--   and regular expressions are the parameter of Ads/Interfaces.antt.
-- * plot/ saves how a chart is laid out. Plot/Layout.antt models PlotLayout.cpp: what is kept for the
--   file of one domain, what saving may strip, and in its child Json the document, with the form of
--   the first version.
-- * converter/ imports and exports tables. Converter/CsvSource.antt models CsvSource.cpp, the grid of
--   cells of a CSV file, and Converter/JsonSource.antt JsonSource.cpp, that of a JSON file.
--   Converter/TabularSource.antt and its children model TabularSource.cpp, which turns a grid into
--   signals by a profile: Labels the names of the columns, Cells the numbers in them, Reading the
--   loops over the rows, Vectors what is done to a channel's timestamps and values, beside a reference
--   on pairs in Collapse, and Apply the import
--   as a whole. Converter/ConverterProfile.antt models the documents of ConverterProfile.cpp, with the
--   profiles of a file's metadata line, of the native JSON form and of a plain header in its
--   children Metadata, Native and Header. Converter/CsvWriter.antt models CsvWriter.cpp: the values, Grid the shared rows, Columns what the metadata describes, Lines the
--   text, and Repeats the scan for repeated timestamps.
--
-- Prelude.antt and its children hold the shared tests, lists, integers, texts, machine words, maps
-- and the interface to JSON. Tests/ instantiates the interfaces and applies the theorems to concrete
-- inputs.
--
-- Bounds: the expansion counts its depth down from the cap that the source derives from the table, so
-- it takes no fuel of its own. The parser of the raw table has one round of fuel for each byte and
-- one more, and an entry takes at least 42 bytes. 32-bit offsets and 64-bit counters wrap as in the
-- source, and so does the product of an array's counts, a signed 64-bit word. Array bounds and the
-- count of one dimension are unbounded integers. Memory is unbounded, but for the
-- queue, which may refuse a sample.
--
-- Doubles are a type with the operations that the code uses, so nothing is said of rounding. The
-- labels of columns are built on fuel that is one more than the column's number, and the runs of
-- samples on fuel that is the number of samples; each round leaves less, and the theorems that use
-- them rest on no fuel. Timestamps of an import are unbounded integers.
--
-- Not modelled: the words of warnings and log lines, locks and timers, the conversion of samples to
-- floating point, the ADS clients of the vendor's libraries, the file formats but CSV and
-- JSON, the profiles of TwinCAT's exports, the formula engine, and the user interfaces.
pub mod Prelude
pub mod Core
pub mod Recorder
pub mod Ads
pub mod Plot
pub mod Converter
pub mod Tests
