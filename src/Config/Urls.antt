-- ===== src/Config/Urls.antt =====
-- internal/config/config.go: the check on absolute http(s) URLs that all of the settings share.
-- url.ParseRequestURI is a parameter.
use token_auth_proxy.Common.{not, ◌&&◌, Option, none, some, is_empty, if◌then◌else◌}
use token_auth_proxy.Text.{Text, text, ◌==◌}
use token_auth_proxy.Oauth.Clients.{Url, UriError, unparsable, bad_scheme, no_host}

pub data AbsoluteUrl : Type 0 where
  absolute : Url → AbsoluteUrl
  not_absolute : UriError → AbsoluteUrl

abbrev read_absolute : Option Url → AbsoluteUrl
read_absolute none = not_absolute unparsable
read_absolute (some u) =
    if not (u.scheme == text "http") && not (u.scheme == text "https")
    then not_absolute bad_scheme
    else if is_empty u.host
    then not_absolute no_host
    else absolute u

module _ (parse_request_uri : Text → Option Url) where
  unfoldable pub parse_absolute_http_url : Text → AbsoluteUrl
  parse_absolute_http_url raw = read_absolute (parse_request_uri raw)

  abbrev url_error : AbsoluteUrl → Option UriError
  url_error (absolute u) = none
  url_error (not_absolute e) = some e

  -- The error alone, where the URL itself is not used.
  unfoldable pub check_url : Text → Option UriError
  unfolding parse_absolute_http_url
  check_url raw = url_error (parse_absolute_http_url raw)
