-- ===== src/Http/Health.antt =====
-- `Health` of base_handler.go with its three checks. What a connection to a service does, step after
-- step, is an input: each step succeeds or fails with an error.
use Prim.Native.String.{◌++◌ as str_append}
use manga_hub.Prelude.{
  String, ◌==◌, if◌then◌else◌, Option, none, some, Result, ok, err, Unicode, to_lower,
}
use manga_hub.Http.Requests.{error_text}

-- `gin.H` of a check: healthy, or an error's text
pub data Health : Type 0 where
  healthy : Health
  unhealthy : String → Health

-- `health_reply` is the answer's `type` where it is a string; `none` is a reply that is not JSON
pub record Probe : Type 0 where
  pub address : Result (Unit {0})
  pub dial : Result (Unit {0})
  pub write_deadline : Result (Unit {0})
  pub write : Result (Unit {0})
  pub read_deadline : Result (Unit {0})
  pub read : Result (Unit {0})
  pub decoded : Result String

-- a client made, and the reply's status if the reply is not nil
pub record GrpcProbe : Type 0 where
  pub client : Result (Unit {0})
  pub check : Result (Option String)

-- `services` of the answer; the HTTP service is always healthy
pub record Services : Type 0 where
  pub grpc : Health
  pub tcp : Health
  pub udp : Health

module _ (quote : String → String) ⦃u : Unicode⦄ where
  abbrev step : Result (Unit {0}) → Health → Health
  step (ok _) rest = rest
  step (err e) rest = unhealthy (error_text quote e)

  abbrev judged : String → Result String → Health
  judged unexpected (err e) = unhealthy (str_append "invalid response: " (error_text quote e))
  judged unexpected (ok type) =
      if to_lower type == "health_ok" then healthy else unhealthy unexpected

  unfoldable pub check_tcp : Probe → Health
  unfolding error_text
  check_tcp p = step p.dial (
      step p.write_deadline (
        step p.write
          (step p.read_deadline (step p.read (judged "unexpected tcp health response" p.decoded)))))

  unfoldable pub check_udp : Probe → Health
  unfolding error_text
  check_udp p = step p.address (
      step p.dial (
        step p.write_deadline (
          step p.write (
            step p.read_deadline
              (step p.read (judged "unexpected udp health response" p.decoded))))))

  abbrev replied : Result (Option String) → Health
  replied (err e) = unhealthy (error_text quote e)
  replied (ok none) = unhealthy "grpc health returned empty reply"
  replied (ok (some status)) =
      if to_lower status == "ok"
      then healthy
      else unhealthy (str_append "unexpected grpc health status: " status)

  unfoldable pub check_grpc : GrpcProbe → Health
  unfolding error_text
  check_grpc p = step p.client (replied p.check)

  -- the body of the answer, whose status is 200 whatever the checks say
  unfoldable pub health : GrpcProbe → Probe → Probe → Services
  unfolding check_grpc check_tcp check_udp
  health grpc tcp udp = record { grpc = check_grpc grpc; tcp = check_tcp tcp; udp = check_udp udp }
