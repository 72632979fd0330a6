-- ===== src/Feeds/Fetch/Tests.antt =====
-- A fetch that is answered with "not modified".
use server_validator.Feeds.Fetch.Chain.{answers-Sent, IsGenuine, fetch_chain, fetch_chain-Sent}
use server_validator.Prelude.{List, Bool, ℕ, ◌+◌, ◌≡◌, refl, true, false, [], ◌∷◌, none, some}
use server_validator.Prelude.Int.{pos}
use server_validator.Text.{is_empty}
use server_validator.Sink.Dsn.{ok}
use server_validator.Feeds.Fetch.{
  CacheMeta, fresh, Files, Faults, Codec, Response, Net, load, body_error, store, receive, request,
  fetch_static,
}
use server_validator.Feeds.Fetch.Origin.{From, load-store, fetch_static-From}

-- A server that says that nothing was modified, and an entry that carries an entity tag.
abbrev unmodified : Response
unmodified = record { status = 304; body = ok []; etag = []; last_modified = [] }

abbrev stored_meta : CacheMeta
stored_meta = record { url = b'u' ∷ []; etag = b'e' ∷ []; last_modified = []; fetched_at = pos 0 }

abbrev codec : Codec
codec = record { marshal = λ m. ok m.etag; unmarshal = λ s. ok stored_meta }

abbrev no_faults : Faults
no_faults = record {
  mkdir_error = none;
  create_error = none;
  write_error = none;
  close_error = none;
  rename_error = none;
  meta_error = none;
}

abbrev net : Net
net = record {
  World = ℕ;
  get = λ url hdr w. (ok unmodified, w + 1);
  since = λ t w. (pos 5, w);
  now = λ w. (pos 5, w);
  faults = λ w. (no_faults, w);
}

abbrev entry : Files
entry = record { body = some (b'b' ∷ []); meta = some (b'e' ∷ []) }

entry_fetched :
    (fetch_static net codec (pos 3600) false false (b'u' ∷ []) entry 0).0 ≡ ok (b'b' ∷ [])
unfolding fetch_static load fresh is_empty request receive
entry_fetched = refl

fetch_static-From_example : From net codec (pos 3600) (b'u' ∷ []) entry false (b'b' ∷ [])
fetch_static-From_example =
    fetch_static-From net codec (pos 3600) false false (b'u' ∷ []) entry 0 (b'b' ∷ []) entry_fetched

stored_entry : (store codec no_faults (b'n' ∷ []) stored_meta entry).1 ≡ none
unfolding store body_error
stored_entry = refl

load-store_example :
    load codec (store codec no_faults (b'n' ∷ []) stored_meta entry).0
    ≡ some (b'n' ∷ [], stored_meta)
load-store_example =
    load-store codec no_faults (b'n' ∷ []) stored_meta entry (λ mb e. refl) stored_entry

-- A server that sends a body with an entity tag, and a cache that is empty at first: the second fetch
-- is asked to refresh.
abbrev fresh_net : Net
fresh_net = record net {
  get = λ url hdr w. (
    ok (record { status = 200; body = ok (b'n' ∷ []); etag = b'e' ∷ []; last_modified = [] }),
    w + 1,
  );
}

abbrev empty : Files
empty = record { body = none; meta = none }

abbrev two_fetches : List (Bool × Bool × (ℕ → ℕ))
two_fetches = (false, false, λ w. w) ∷ (false, true, λ w. w + 1) ∷ []

fetch_chain-Sent_example :
    let left = fetch_chain fresh_net codec (pos 3600) (b'u' ∷ []) two_fetches empty 0 in
    answers-Sent fresh_net codec (pos 3600) (b'u' ∷ []) left.0
    × IsGenuine fresh_net codec (pos 3600) (b'u' ∷ []) left.1
fetch_chain-Sent_example =
    fetch_chain-Sent fresh_net codec (pos 3600) (b'u' ∷ []) two_fetches empty 0 (λ b h. cc)
