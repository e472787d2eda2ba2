-- ===== src/Tests/System.antt =====
-- The server with the in-memory storage, after one request.
use userd.Common.{ℕ, String, ◌≡◌, ◌≢◌, refl}
use userd.Errors.Instance.{errgo}
use userd.User.{User}
use userd.Exec.{ok}
use userd.Storage.Interface.{Field, value}
use userd.Storage.KeyValue.{get}
use userd.Storage.Local.{LocalState}
use userd.Storage.Local.Laws.{local_storage}
use userd.Storage.Directory.{IsIncomplete}
use userd.Service.Backends.{World}
use userd.Api.Routes.{Route}
use userd.Api.History.{initially, request, after}
use userd.System.{memory_dependencies, memory_directory, at_start, Reached-IsUnique}
use userd.Tests.Codec.{codec, encode}
use userd.Tests.Collector.{empty_collector}
use userd.Tests.World.{id_factory, hasher, config}
use userd.Tests.Api

storable : (u : User) → (text : String) × (codec.marshal u ≡ ok text)
storable u = (encode u, refl)

-- The world after Ann is created.
abbrev served : World LocalState ℕ ℕ
served =
    after errgo (memory_dependencies errgo codec id_factory hasher (λ e. ok "event"))
      (memory_directory errgo codec id_factory hasher (λ e. ok "event")) Api.marshal_item
      Api.encode_item config Api.encode empty_collector Route.create_user Api.ann_request
      (at_start errgo codec id_factory hasher (λ e. ok "event") 0 0 100)

Reached-IsUnique_example :
    ((id : String) (u : User)
      → (get errgo codec local_storage id served.store).0 ≡ ok u
      → (u.id ≡ id) × (¬ IsIncomplete u))
    × ((f : Field) (i j : String) (u v : User)
        → (get errgo codec local_storage i served.store).0 ≡ ok u
        → (get errgo codec local_storage j served.store).0 ≡ ok v
        → value f u ≡ value f v
        → value f u ≢ ""
        → i ≡ j)
Reached-IsUnique_example =
    Reached-IsUnique errgo codec id_factory hasher (λ e. ok "event") Api.marshal_item
      Api.encode_item config storable (λ e. ("event", refl)) 0 0 100 served
      (request Api.encode empty_collector Route.create_user Api.ann_request initially)
