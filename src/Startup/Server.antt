-- ===== src/Startup/Server.antt =====
-- http/cli/server.go: how main listens, and with which handler. The flag set, and ListenAndServe and
-- ListenAndServeTLS of net/http over a state N of the network, are parameters.
use userd.Common.{ℕ, String, Bool, false, if◌then◌else◌}
use userd.User.{Time}
use userd.Exec.{Exec, pure, abort, attempt}
use userd.Api.Logger.{LogLine, HttpHandler, serve_request_logger}

pub record HttpServerStarter : Type 0 where
  pub listen_address : String
  pub log_requests : Bool
  pub use_https : Bool
  pub https_certificate_file : String
  pub https_key_file : String

-- StringVar and BoolVar: what a flag is once the command line is parsed.
pub record FlagSet : Type 0 where
  pub string_var : (name default_value : String) → String
  pub bool_var : (name : String) (default_value : Bool) → Bool

abbrev pub new_http_server_starter : HttpServerStarter
new_http_server_starter = record {
  listen_address = "localhost:8080";
  log_requests = false;
  use_https = false;
  https_certificate_file = "";
  https_key_file = "";
}

unfoldable pub new_starter_from_flag_set : FlagSet → HttpServerStarter
new_starter_from_flag_set flag_set = record new_http_server_starter {
  listen_address = flag_set.string_var "listen" "localhost:8080";
  log_requests = flag_set.bool_var "log-requests" false;
  use_https = flag_set.bool_var "https-enable" false;
  https_certificate_file = flag_set.string_var "https-certificate" "server.cert";
  https_key_file = flag_set.string_var "https-key" "server.key";
}

-- Listening, which returns when it fails.
pub record NetHttp (N W : Type 0) : Type 0 where
  pub listen_and_serve : (address : String) → HttpHandler W → Exec N (Unit {0})
  pub listen_and_serve_tls : (address certificate key : String) → HttpHandler W → Exec N (Unit {0})

module _ {W : Type 0} (now : W → Time) (print : LogLine → W → W) (n : String → ℕ) where
  -- The handler, in front of which a logger stands where the flag asks for it.
  unfoldable pub with_logger : HttpServerStarter → HttpHandler W → HttpHandler W
  with_logger starter handler =
      if starter.log_requests then serve_request_logger now print n handler else handler

  unfoldable pub start_http_interface :
      {N : Type 0} → NetHttp N W → HttpServerStarter → HttpHandler W → Exec N (Unit {0})
  unfolding with_logger
  start_http_interface http starter handler =
      let logged = with_logger starter handler in
      if starter.use_https
      then attempt
          (http.listen_and_serve_tls starter.listen_address starter.https_certificate_file
            starter.https_key_file logged)
          pure (λ e. abort)
      else attempt (http.listen_and_serve starter.listen_address logged) pure (λ e. abort)
