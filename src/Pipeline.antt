-- ===== src/Pipeline.antt =====
-- app/pipeline.py
pub mod Chat
pub mod Summarize
pub mod Fetch
pub mod OpenAi
pub mod Chunk
pub mod Thinking
