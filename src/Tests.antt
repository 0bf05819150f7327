-- ===== src/Tests.antt =====
-- Concrete runs of the program's parts, one for each theorem that has conditions.
mod Web
mod Agent
mod Switch
mod Service
mod Auth
mod FakeDev
