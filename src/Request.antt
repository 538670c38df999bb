-- ===== src/Request.antt =====
-- beater/request: the result of a request and the context that carries it.
pub mod Result
pub mod Context
