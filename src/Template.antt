-- ===== src/Template.antt =====
-- The templates of the generator: template_to_c.cc and template_patterns.cc.
pub mod Escape
pub mod Patterns
pub mod Compile
pub mod Lines
pub mod Files
