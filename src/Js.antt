-- ===== src/Js.antt =====
-- What the TypeScript sources use of JavaScript and of the platform: dynamic values, thrown
-- errors, asynchronous actions, and the primitives of the browser and of Node.
pub mod Value
pub mod Shape
pub mod Serde
pub mod Result
pub mod Io
pub mod Platform
