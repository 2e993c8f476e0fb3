-- ===== src/EnvEditor.antt =====
-- apps/web/src/components/env-editor.tsx: the editor of a layer of variables. `Rows` is its table, with
-- the text behind it in `Table`, `Line` the colors of its text, `Form` the draft, of which `Kept` and
-- `Saved` say when it restarts and what is sent.
pub mod Rows
pub mod Table
pub mod Line
pub mod Form
pub mod Kept
pub mod Saved
mod Tests
