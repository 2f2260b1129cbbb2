-- ===== src/Llm.antt =====
-- The packages llm and llm/openai.
pub mod Openai
pub mod ToolBox
