-- ===== src/Js.antt =====
-- js/: the values, the objects and the heap of the script engine.
pub mod Value
pub mod Object
pub mod Heap
pub mod Bytecode
