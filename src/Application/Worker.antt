-- ===== src/Application/Worker.antt =====
-- The worker in the sandbox: the requests that it forwards to the application.
use lean_fm.Common.{
  ℕ, String, Bool, true, false, not, ◌&&◌, ◌||◌, Option, none, some, List, [], ◌∷◌, if◌then◌else◌,
  ◌==◌, ltb, leb, eqb, any, str_len, any_char, starts_with, is_empty, split,
}

-- LIMIT
abbrev pub limit : ℕ
limit = 4_194_304

-- TARGETS
abbrev pub targets : List String
targets = "build" ∷ "run" ∷ "stop" ∷ "test" ∷ "check" ∷ "clean" ∷ "serve" ∷ []

-- What `make -n -B target` gives: whether it fails, prints nothing, or says that nothing is to do.
pub record DryRun : Type 0 where
  pub has_failed : Bool
  pub is_blank : Bool
  pub has_nothing_to_do : Bool

-- The first target that the application does not support.
unfoldable pub unsupported : (String → DryRun) → List String → Option String
unsupported make [] = none
unsupported make (target ∷ rest) =
    let later = unsupported make rest in
    if (make target).has_failed || (make target).is_blank || (make target).has_nothing_to_do
    then some target
    else later

-- A response of the application, read up to one byte over the limit.
pub record Page : Type 0 where
  pub status : ℕ
  pub size : ℕ
  pub content_type : String
  pub body : String

-- A line of the socket; `body` is the bytes that the hexadecimal text stands for, none where it is
-- malformed.
pub record Request : Type 0 where
  pub operation : String
  pub nonce : String
  pub path : String
  pub body : Option String
  pub method : String
  pub content_type : String

-- `urlsplit` and `unquote`
pub record Library : Type 0 where
  pub scheme : String → String
  pub netloc : String → String
  pub path_of : String → String
  pub unquote : String → String

-- `ready`, whether `make run` has ended, the answer at the readiness path, and the loopback HTTP
-- exchange, none where it raises.
pub record App : Type 0 where
  pub is_ready : Bool
  pub has_exited : Bool
  pub probe : Option Page
  pub respond : Request → Option Page

pub data Fault : Type 0 where
  invalid_identity invalid_path invalid_body request_too_large unsupported_method : Fault
  invalid_content_type no_response response_too_large invalid_upstream redirected : Fault

pub data Result : Type 0 where
  ready_is : Bool → Result
  responded : (status : ℕ) → (content_type : String) → (body : String) → Result
  error : Fault → Result

abbrev pub is_control : ℕ → Bool
is_control c = ltb c 32

abbrev pub is_dots : String → Bool
is_dots part = part == "." || part == ".."

unfoldable pub is_invalid_path : Library → String → Bool
unfolding split
is_invalid_path lib path =
    not (is_empty (lib.scheme path))
    || not (is_empty (lib.netloc path))
    || not (starts_with path "/")
    || starts_with path "//"
    || any is_dots (split b'/' (lib.unquote (lib.path_of path)))
    || any_char (λ c. eqb c b'\\') (lib.unquote path)
    || any_char is_control path

abbrev pub methods : List String
methods = "GET" ∷ "HEAD" ∷ "POST" ∷ "PUT" ∷ "PATCH" ∷ "DELETE" ∷ []

abbrev pub is_method : String → Bool
is_method m = any (λ name. m == name) methods

abbrev pub has_line_end : String → Bool
has_line_end s = any_char (λ c. eqb c 13) s || any_char (λ c. eqb c 10) s

abbrev pub is_bad_type : String → Bool
is_bad_type s = ltb 256 (str_len s) || has_line_end s

-- The checks of a response.
unfoldable pub pass_response : Option Page → Result
pass_response none = error no_response
pass_response (some page) =
    if ltb limit page.size
    then error response_too_large
    else if is_bad_type page.content_type
    then error invalid_upstream
    else if leb 300 page.status && ltb page.status 400
    then error redirected
    else responded page.status page.content_type page.body

unfoldable pub forward_body : App → Request → Option String → Result
unfolding pass_response
forward_body app request none = error invalid_body
forward_body app request (some body) =
    if ltb limit (str_len body)
    then error request_too_large
    else if not (is_method request.method)
    then error unsupported_method
    else if not (is_empty request.content_type) && is_bad_type request.content_type
    then error invalid_content_type
    else pass_response (app.respond request)

abbrev pub is_healthy_page : Option Page → Bool
is_healthy_page none = false
is_healthy_page (some page) = eqb page.status 200 && leb page.size 65536

-- The answer to `health`.
unfoldable pub health : String → App → Request → Result
health nonce app request =
    if not (request.nonce == nonce)
    then error invalid_identity
    else ready_is (app.is_ready && not app.has_exited && is_healthy_page app.probe)

-- `handle`, after the request was read and parsed.
unfoldable pub handle : Library → String → App → Request → Result
unfolding is_invalid_path forward_body health
handle lib nonce app request =
    if request.operation == "health"
    then health nonce app request
    else if is_invalid_path lib request.path
    then error invalid_path
    else forward_body app request request.body

-- A pass of the loop that waits for readiness: whether `make run` has ended, and the answers for
-- the two paths.
pub record Attempt : Type 0 where
  pub has_exited : Bool
  pub readiness : Option Page
  pub page : Option Page

abbrev pub is_page : Option Page → Bool
is_page none = false
is_page (some page) = eqb page.status 200 && leb 1 page.size && leb page.size limit

-- Whether the loop ends with `ready`; the attempts end with the deadline.
unfoldable pub becomes_ready : List Attempt → Bool
becomes_ready [] = false
becomes_ready (a ∷ attempts) =
    let later = becomes_ready attempts in
    if a.has_exited then false else if is_page a.readiness && is_page a.page then true else later
