-- ===== src/Converter.antt =====
-- The import and the export of files (converter/): the grid that is read, and the text that is
-- written.
pub mod TabularSource
pub mod CsvSource
pub mod JsonSource
pub mod CsvWriter
pub mod ConverterProfile
