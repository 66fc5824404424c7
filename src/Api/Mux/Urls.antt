-- ===== src/Api/Mux/Urls.antt =====
-- The addresses of a session, and where they lead.
