-- ===== src/Uri.antt =====
-- Building of URIs and of form data: uri_escape.c, uri_add_query.c and encode_form_data.c.
pub mod Escape
pub mod Query
pub mod Form
