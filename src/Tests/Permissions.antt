-- ===== src/Tests/Permissions.antt =====
-- The table of the routes at a creation, and a history without verify_email.
use userd.Common.{ℕ, ◌≡◌, refl, false, some}
use userd.Errors.Instance.{errgo}
use userd.Storage.Local.{LocalState}
use userd.Storage.Local.Laws.{local-IsLawful}
use userd.Service.Backends.{World}
use userd.Api.Atomic.{arriving}
use userd.Api.History.{initially, request, after}
use userd.Api.Permissions.{Permitted}
use userd.Api.Permitted.{serve-Permitted}
use userd.Api.Routes.{Route, serve}
use userd.Api.Verified.{Reached-Unverified}
use userd.Tests.Api
use userd.Tests.Journeys.{ann}
use userd.Tests.Collector.{empty_collector}
use userd.Tests.World.{deps, directory, storable, marshals, start, start-IsValid, config}
use userd.Tests.Success.{nobody}

serve-Permitted_example : Permitted Route.create_user (directory.users start.store) (
    directory.users
      (serve errgo deps Api.encode Api.marshal_item Api.encode_item config empty_collector
        Route.create_user Api.ann_request
        (arriving errgo deps directory start)).1.world.store)
serve-Permitted_example =
    serve-Permitted errgo deps directory storable marshals Api.encode Api.marshal_item
      Api.encode_item config empty_collector Route.create_user Api.ann_request start start-IsValid

-- The world after Ann is created.
abbrev served : World LocalState ℕ ℕ
served =
    after errgo deps directory Api.marshal_item Api.encode_item config Api.encode empty_collector
      Route.create_user Api.ann_request start

served_ann : directory.users served.store "u" ≡ some ann
unfolding Api.service serve local-IsLawful
served_ann = refl

Reached-Unverified_example : ann.email_verified ≡ false
Reached-Unverified_example =
    Reached-Unverified errgo deps directory Api.marshal_item Api.encode_item config storable
      marshals start-IsValid (λ id u at. absurd (nobody id u at))
      (request Api.encode empty_collector Route.create_user Api.ann_request initially)
      ((λ e. cc), tt) "u" ann served_ann
