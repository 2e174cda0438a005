-- ===== src/Templates.antt =====
-- src/async_gateway/templates: path expressions, resolved templates, their checks, their registry and
-- the rendering of their paths.
pub mod Expression
pub mod Schema
pub mod Resolved
pub mod Validator
pub mod Registry
pub mod Changes
pub mod Render
