-- ===== src/Sampling.antt =====
-- apps/api/src/sampling: the columns and rows that the designer is shown of an input file.
pub mod Infer
pub mod Csv
pub mod Union
pub mod Json
pub mod Xml
