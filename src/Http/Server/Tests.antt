-- ===== src/Http/Server/Tests.antt =====
-- Runs of the HTTP server.
use serverlite.Base.{◌≡◌, refl, false, none, some, [], ◌∷◌, codes, bytes_eq}
use serverlite.Http.{get, HttpRequest}
use serverlite.Http.Server.{
  FileSystem, HttpServer, directory, add_route_callback, open_file_mode, on_request, response,
}

-- A directory `d` with one file in it.
abbrev files : FileSystem
files = record {
  exists = λ p. bytes_eq p (codes "d");
  kind = λ p. some directory;
  entries = λ p. some ((codes "d/a.txt", codes "a.txt") ∷ []);
  lines = λ p. [];
}

abbrev bare : HttpServer
bare = record { rules = λ p m. none; not_found = none; file_mode = false }

abbrev server : HttpServer
server = add_route_callback (codes "/") get (codes "hi") bare

abbrev fresh : HttpRequest
fresh = record { method = get; path = []; version = []; header = λ f. [] }

abbrev asked : HttpRequest
asked = record fresh { path = codes "d" }

-- The listing of the directory, and the route's answer.
listed :
    on_request files 0 (open_file_mode bare) asked
    ≡ response 200
        (codes "<!DOCTYPE html><html lang=\"zh-CN\"><a href=d/a.txt>a.txt</a><br></html>")
unfolding on_request bytes_eq
listed = refl

routed : on_request files 0 server (record fresh { path = codes "/" }) ≡ response 404 (codes "hi")
unfolding on_request bytes_eq add_route_callback
routed = refl
