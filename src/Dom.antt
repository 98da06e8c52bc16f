-- ===== src/Dom.antt =====
-- dom/: the node slab, the document and the tree operations.
pub mod Handle
pub mod NodeTable
pub mod Attributes
pub mod Document
pub mod Creation
pub mod DomTree
pub mod Content
pub mod Siblings
pub mod Selectors
pub mod WrapperCache
pub mod CommandBuffer
