-- ===== src/Ui.antt =====
-- internal/ui/ui.go: the static files. The embedded files and `http.FileServer` are arguments.
use kc_jit_public.Base.{String, Bool, ◌||◌, ◌==◌, Result, ok, err, if◌then◌else◌}
use kc_jit_public.Http.{Page, http_error}

-- What `ReadFile("static/index.html")` answers, and the file server's answer for a path.
pub record Files : Type 0 where
  pub index : Result String
  pub file_server : String → Page

-- The start page goes out as it is, since the file server would redirect it.
unfoldable pub index_page : Result String → Page
index_page (err m) = http_error 500 m
index_page (ok text) = record { code = 200; content_type = "text/html; charset=utf-8"; body = text }

abbrev pub is_index : String → Bool
is_index path = path == "/" || path == "/app" || path == "/index.html"

-- `Handler`.
unfoldable pub ui_handler : Files → String → Page
unfolding index_page
ui_handler files path = if is_index path then index_page files.index else files.file_server path
