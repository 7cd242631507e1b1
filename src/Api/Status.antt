-- ===== src/Api/Status.antt =====
-- src/api.rs: the status codes that the handlers answer with, of the library `http`.
use scpy.Prelude.{ℕ}

abbrev pub created : ℕ
created = 201

abbrev pub unauthorized : ℕ
unauthorized = 401

abbrev pub not_found : ℕ
not_found = 404

abbrev pub conflict : ℕ
conflict = 409

abbrev pub unprocessable_entity : ℕ
unprocessable_entity = 422

abbrev pub internal_server_error : ℕ
internal_server_error = 500

abbrev pub service_unavailable : ℕ
service_unavailable = 503
