-- ===== src/Tests/Brokering.antt =====
-- A client asks for a sum, and gets it from the server that offers it.
use rpc_broker.Example.Codec.Laws.{codec-IsCodec}
use rpc_broker.Broker.Find.Server.{reg_of, find_server_for_req_lem}
use rpc_broker.Broker.Handler.Responses.{
  on_service_response-unmatched, request_response, on_service_response_lem,
}
use rpc_broker.Common.Wire.Delivery.{frame}
use rpc_broker.Broker.Handler.Requests.{after_request, on_service_request_lem}
use rpc_broker.Outcome.{done, fault}
use rpc_broker.Example.Codec.{codec}
use rpc_broker.Tests.Data.{
  client, request, response, books, request_headers, response_headers, server, request-Decodes,
  response-Decodes, request_headers-AllNamed, response_headers-AllNamed,
}
use rpc_broker.Example.Libraries.{env, stulibc, env-IsLawful, net-IsUp, stulibc-IsStulibc}
use rpc_broker.Stulibc.{Inserts, unset, to}
use rpc_broker.Broker.Find.{find_client_for_response, find_server_for_req}
use rpc_broker.Broker.Handler.{on_service_response, on_service_request}
use rpc_broker.Broker.Handler.View.{View, state_of, Message, Asks, Message-headers, Asks-headers}
use rpc_broker.Broker.Find.Client.{Request, creg_of, find_client_for_response_lem}
use rpc_broker.Common.Protocol.{
  request_type_hdr, message_id_hdr, sender_address_hdr, operation_hdr, reply_port_hdr, reply_hdr,
  service_params_hdr,
}
use rpc_broker.Base.{◌≡◌, refl, List, [], ◌∷◌, ◌++◌, map}
use rpc_broker.Base.{codes, text_eq}
use rpc_broker.Base.{pos, int32}

pub client-Asks : Asks env request client
unfolding request_type_hdr message_id_hdr sender_address_hdr reply_port_hdr operation_hdr
    service_params_hdr text_eq int32
client-Asks =
    Asks-headers env env-IsLawful request request_headers client refl request-Decodes
      request_headers-AllNamed refl refl refl refl

pub response-Message : Message env response (pos 7) (codes "add")
unfolding request_type_hdr message_id_hdr operation_hdr reply_hdr text_eq int32
response-Message =
    Message-headers env env-IsLawful response response_headers (codes "add") refl response-Decodes
      response_headers-AllNamed refl

on_service_request_example :
    (rs : List Request) × Inserts client [] rs
    × (on_service_request env request (state_of books)
        ≡ (done tt, state_of (after_request request client books rs)))
on_service_request_example =
    on_service_request_lem env env-IsLawful net-IsUp request client books client-Asks

request_response_example :
    (w : View) × (on_service_request env request (state_of books) ≡ (done tt, state_of w))
    × (on_service_response env response (state_of w) ≡ (
      done tt,
      state_of (record books {
        sent =
            frame (codes "10.0.0.9") (codes "8181") request
            ++ frame (codes "10.0.0.5") (codes "9091") response;
      }),
    ))
unfolding text_eq
request_response_example =
    request_response env env-IsLawful net-IsUp request response client books client-Asks
      response-Message refl

on_service_response_example :
    on_service_response env response (state_of (record books { requests = client ∷ [] }))
    ≡ (done tt, state_of (record books { sent = frame (codes "10.0.0.5") (codes "9091") response }))
unfolding text_eq
on_service_response_example =
    on_service_response_lem env env-IsLawful net-IsUp response (pos 7) (codes "add") client []
      (record books { requests = client ∷ [] }) response-Message refl

-- The response comes when nobody has asked.
on_service_response-unmatched_example :
    on_service_response env response (state_of books) ≡ (fault, state_of books)
on_service_response-unmatched_example =
    on_service_response-unmatched env env-IsLawful net-IsUp response (pos 7) (codes "add") books
      response-Message refl

find_server_for_req_example :
    find_server_for_req stulibc codec request (map reg_of (server ∷ []))
    ≡ done (record { address = to (codes "10.0.0.9"); port = to (codes "8181") })
unfolding request_type_hdr message_id_hdr sender_address_hdr reply_port_hdr operation_hdr
    service_params_hdr text_eq
find_server_for_req_example =
    find_server_for_req_lem codec codec-IsCodec stulibc stulibc-IsStulibc request request_headers
      (codes "add") (server ∷ []) request-Decodes request_headers-AllNamed refl

find_client_for_response_example :
    find_client_for_response stulibc codec response
      (record { address = unset; port = unset })
      (map creg_of (client ∷ []))
    ≡ done (record { address = to (codes "10.0.0.5"); port = to (codes "9091") }, [])
unfolding text_eq
find_client_for_response_example =
    find_client_for_response_lem codec stulibc stulibc-IsStulibc response (pos 7) (codes "add")
      response-Message.ids response-Message.ops (record { address = unset; port = unset })
      (client ∷ [])
