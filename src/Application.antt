-- ===== src/Application.antt =====
-- The services of application/.
pub mod Service
pub mod ContextState
pub mod ContextManagement
pub mod StructuredIngestion
pub mod ChatCapture
pub mod ProviderCapture
pub mod Requests
pub mod ResponsesProtocol
pub mod ContextCompilation
pub mod TranscriptLifecycle
