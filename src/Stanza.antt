-- ===== src/Stanza.antt =====
-- xmpp-stanza.c: XML elements and texts. A stanza is the tree below it; `parent` is the stanza that holds
-- it, and `prev` and `next` its place among the children. NULL is `none`.
pub mod Tree
pub mod Gather
pub mod Copy
pub mod Children
pub mod Escape
pub mod Escaped
pub mod Pen
pub mod Emit
pub mod Render
pub mod Text
pub mod Writes
pub mod Tags
pub mod Rendered
pub mod ToText
pub mod Attributes
pub mod Added
mod Runs
