-- ===== src/Client/Addresses.antt =====
-- frontend/src/api/client.ts: the addresses of the requests and the names in them.
use secan.Base.{◌≡◌, String, some, true, ◌+++◌, truthy}
use secan.Base.Decimal.{Without}
use secan.Client.{AxiosError, Response, handle_error}
use secan.Client.Requests.{Request, url_of}
use secan.Client.Rejection.{handle_error-forbidden}

-- Whatever request on a cluster is answered with status 403, the redirect goes to the page that
-- denies access to that cluster, `/access-denied/` with the encoded id, if the cluster's id is not
-- empty and has no slash.
pub handle_error-url_of :
    (encode : String → String) (location id : String) (request : Request) (e : AxiosError)
    (r : Response)
    → truthy id ≡ true
    → Without b'/' id
    → e.url ≡ some (url_of id request)
    → e.response ≡ some r
    → r.status ≡ 403
    → (handle_error encode location e).redirect ≡ some ("/access-denied/" +++ encode id)
unfolding url_of
handle_error-url_of encode location id request e r full plain on answered denied =
    handle_error-forbidden encode location id request.path e r full plain answered denied on
