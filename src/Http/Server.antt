-- ===== src/Http/Server.antt =====
-- src/slite/http/HTTPServer.cc. The callbacks of the routes are what they return; the file system is a
-- parameter. A response that onRequest leaves without a status has the one that stood in memory,
-- an argument, as its constructor sets none.
pub mod Pages
mod Tests
use serverlite.Base.{
  ℕ, ◌+◌, Bool, true, false, not, ◌&&◌, ◌||◌, Option, some, none, List, [], ◌∷◌, ◌++◌, Bytes, codes,
  length, bytes_eq, if◌then◌else◌, ◌==◌,
}
use serverlite.Base.Options.{◌>>=◌}
use serverlite.Http.{HttpMethod, get, post, HttpRequest, HttpResponse}

-- What is_directory and is_regular_file say, in this order.
pub data FileKind : Type 0 where
  directory regular other_kind : FileKind

-- std::filesystem and std::ifstream. `none` stands for an exception.
pub record FileSystem : Type 0 where
  pub exists : Bytes → Bool
  pub kind : Bytes → Option FileKind
  -- The paths and file names of the entries of a directory.
  pub entries : Bytes → Option (List (Bytes × Bytes))
  -- The lines that getline reads.
  pub lines : Bytes → List Bytes

pub record HttpServer : Type 0 where
  -- rules_: what the callback of a route returns.
  pub rules : Bytes → HttpMethod → Option Bytes
  pub not_found : Option Bytes
  pub file_mode : Bool

abbrev pub method_eq : HttpMethod → HttpMethod → Bool
method_eq get get = true
method_eq post post = true
method_eq _ _ = false

-- addRouteCallback.
pub add_route_callback : Bytes → HttpMethod → Bytes → HttpServer → HttpServer
add_route_callback rule method cb s = record s {
  rules = λ p m. if bytes_eq rule p && method_eq method m then some cb else s.rules p m;
}

-- addNotFoundCallback, and openFileMode.
abbrev pub add_not_found_callback : Bytes → HttpServer → HttpServer
add_not_found_callback cb s = record s { not_found = some cb }

abbrev pub open_file_mode : HttpServer → HttpServer
open_file_mode s = record s { file_mode = true }

-- rfind(text) != npos.
abbrev starts_with : Bytes → Bytes → Bool
starts_with [] s = true
starts_with (x ∷ xs) [] = false
starts_with (x ∷ xs) (y ∷ ys) = x == y && starts_with xs ys

abbrev has_text : Bytes → Bytes → Bool
has_text text [] = starts_with text []
has_text text (b ∷ bs) = starts_with text (b ∷ bs) || has_text text bs

-- The loops of get_file_list over the entries and the lines.
entry_links : List (Bytes × Bytes) → Bytes
entry_links [] = []
entry_links ((path, name) ∷ es) =
    codes "<a href=" ++ (path ++ (codes ">" ++ (name ++ (codes "</a><br>" ++ entry_links es))))

code_lines : List Bytes → Bytes
code_lines [] = []
code_lines (l ∷ ls) = l ++ code_lines ls

paragraphs : List Bytes → Bytes
paragraphs [] = []
paragraphs (l ∷ ls) = codes "<p>" ++ (l ++ (codes "</p>" ++ paragraphs ls))

-- The part of the page between its head and its end.
file_text : FileSystem → Bytes → Bytes
unfolding code_lines paragraphs
file_text fs path =
    if has_text (codes ".png") path
    then codes "   <img src=" ++ (path ++ codes "></img>")
    else if has_text (codes ".cc") path
    then codes "<code>" ++ (code_lines (fs.lines path) ++ codes "</code>")
    else paragraphs (fs.lines path)

listing : FileSystem → Bytes → FileKind → Option Bytes
unfolding entry_links file_text
listing fs path directory = fs.entries path >>= λ es. some (entry_links es)
listing fs path regular = some (file_text fs path)
listing fs path other_kind = some []

page_head : Bytes
page_head = codes "<!DOCTYPE html>" ++ codes "<html lang=\"zh-CN\">"

with_listing : Option Bytes → ℕ × Bytes
unfolding page_head
with_listing none = (500, page_head ++ codes "<p>Server Error</p>")
with_listing (some text) = (200, page_head ++ (text ++ codes "</html>"))

-- get_file_list: the status, and the body.
pub get_file_list : FileSystem → Bytes → ℕ × Bytes
unfolding listing with_listing
get_file_list fs path = with_listing (fs.kind path >>= listing fs path)

abbrev pub response : ℕ → Bytes → HttpResponse
response status body = record { status = status; length = length body; type = []; body = body }

abbrev pub not_found_page : Bytes
not_found_page = codes "<h1>404 Not Found</h1>" ++ codes "slite"

abbrev with_not_found : ℕ → Option Bytes → HttpResponse
with_not_found unset none = response 404 not_found_page
with_not_found unset (some body) = response unset body

with_rule : FileSystem → ℕ → HttpServer → HttpRequest → Option Bytes → HttpResponse
unfolding get_file_list
with_rule fs unset s req (some body) = response 404 body
with_rule fs unset s req none =
    let (status, body) = get_file_list fs req.path in
    if s.file_mode && fs.exists req.path
    then response status body
    else with_not_found unset s.not_found

-- onRequest; `unset` is the status of a response that was never given one.
pub on_request : FileSystem → ℕ → HttpServer → HttpRequest → HttpResponse
unfolding with_rule
on_request fs unset s req = with_rule fs unset s req (s.rules req.path req.method)
