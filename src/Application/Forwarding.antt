-- ===== src/Application/Forwarding.antt =====
-- What reaches the application, and what comes back from it.
use lean_fm.Common.{
  ℕ, String, true, false, some, ◌≡◌, ◌≤◌, ◌<◌, ◌⊎◌, any, str_len, any_char, starts_with, is_empty,
  split, eqb,
}
use lean_fm.Application.Worker.{
  limit, Request, Library, is_dots, is_control, is_method, is_bad_type,
}

-- A path below the application's own root, in plain characters.
pub record IsLocal (lib : Library) (path : String) : Type 0 where
  pub no_scheme : is_empty (lib.scheme path) ≡ true
  pub no_host : is_empty (lib.netloc path) ≡ true
  pub rooted : starts_with path "/" ≡ true
  pub single_root : starts_with path "//" ≡ false
  pub no_dots : any is_dots (split b'/' (lib.unquote (lib.path_of path))) ≡ false
  pub no_backslash : any_char (λ c. eqb c b'\\') (lib.unquote path) ≡ false
  pub no_control : any_char is_control path ≡ false

-- The limits of a forwarded exchange.
pub record IsBounded (request : Request) (status : ℕ) (content_type : String) : Type 0 where
  pub body : (b : String) × (request.body ≡ some b) × (str_len b ≤ limit)
  pub method : is_method request.method ≡ true
  pub types : is_bad_type content_type ≡ false
  pub no_redirect : (status < 300) ⊎ (400 ≤ status)
